-- ===== src/Sharding/Merge/Whole.antt =====
-- Python's integers, as far as line numbers need them: their equality and order.
use smart_bench.Prelude.{ℕ, suc, ◌*◌, ◌≡◌, ◌↔◌, Bool, true, arith, Eq, eqb}
use Prim.Native.Nat.{Ordering, compare}

-- `negsuc n` is -(n + 1).
pub data ℤ : Type 0 where
  pos : ℕ → ℤ
  negsuc : ℕ → ℤ

abbrev code_of : ℤ → ℕ
code_of (pos n) = 2 * n
code_of (negsuc n) = suc (2 * n)

abbrev whole_beq : ℤ → ℤ → Bool
whole_beq a b = eqb (code_of a) (code_of b)

pub whole_beq_iff : (a b : ℤ) → (whole_beq a b ≡ true) ↔ (a ≡ b)
whole_beq_iff a b = ground arith

instance abbrev pub whole_eq : Eq ℤ
whole_eq = record { same = whole_beq; same_iff = whole_beq_iff }

abbrev pub compare_whole : ℤ → ℤ → Ordering
compare_whole (pos a) (pos b) = compare a b
compare_whole (pos a) (negsuc b) = Ordering.gt
compare_whole (negsuc a) (pos b) = Ordering.lt
compare_whole (negsuc a) (negsuc b) = compare b a
