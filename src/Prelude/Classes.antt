-- ===== src/Prelude/Classes.antt =====
-- Decidable equality by a Boolean test, as an instance argument.
use Prim.Native.Nat.{ℕ}
use Prim.Native.String.{String}
use mathlib.Core.Path.{◌≡◌, refl}
use mathlib.Core.Logic.{◌↔◌, ◌≢◌}
use mathlib.Core.Bool.{Bool, true, false, ◌&&◌, not}
use mathlib.Core.Option.{Option, none, some}
use mathlib.Core.List.{List, [], ◌∷◌}
use native.Mathlib.Omega.{arith}
use text.Mathlib.Text.{◌==◌ as str_eq}
use text.Mathlib.TextEquality.{eq_iff}
use smart_bench.Prelude.Tests.{eqb, eqb_iff}

-- A type whose Boolean test `same` decides equality.
pub record Eq {ℓ} (A : Type ℓ) : Type ℓ where
  pub same : A → A → Bool
  pub same_iff : (x y : A) → (same x y ≡ true) ↔ (x ≡ y)

abbrev bool_same : Bool → Bool → Bool
bool_same true y = y
bool_same false y = not y

pub bool_same_iff : (x y : Bool) → (bool_same x y ≡ true) ↔ (x ≡ y)
bool_same_iff x y = ground arith

instance abbrev pub bool_eq : Eq Bool
bool_eq = record { same_iff = bool_same_iff; same = bool_same }

instance abbrev pub string_eq : Eq String
string_eq = record { same_iff = eq_iff; same = str_eq }

infix 50 ◌==◌
abbrev pub ◌==◌ {ℓ} : {A : Type ℓ} ⦃e : Eq A⦄ → (x y : A) → Bool
◌==◌ ⦃e⦄ x y = e.same x y

instance abbrev pub nat_eq : Eq ℕ
nat_eq = record { same_iff = eqb_iff; same = eqb }

module _ {ℓ} {A : Type ℓ} ⦃e : Eq A⦄ where
  pub beq_refl : (a : A) → (a == a) ≡ true
  beq_refl a = (e.same_iff a a).1 refl

  pub beq→eq : (a b : A) → (a == b) ≡ true → a ≡ b
  beq→eq a b = (e.same_iff a b).0

  pub beq_false→ne : (a b : A) → (a == b) ≡ false → a ≢ b
  beq_false→ne a b h p = cc ((e.same_iff a b).1 p)

  pub ne→beq_false : (a b : A) → a ≢ b → (a == b) ≡ false
  ne→beq_false a b h = ground (arith, e.same_iff a b)

  abbrev list_beq : List A → List A → Bool
  list_beq [] [] = true
  list_beq [] (y ∷ ys) = false
  list_beq (x ∷ xs) [] = false
  list_beq (x ∷ xs) (y ∷ ys) = x == y && list_beq xs ys

  pub list_beq_iff : (a b : List A) → (list_beq a b ≡ true) ↔ (a ≡ b)
  list_beq_iff [] [] = ground arith
  list_beq_iff [] (y ∷ ys) = ground arith
  list_beq_iff (x ∷ xs) [] = ground arith
  list_beq_iff (x ∷ xs) (y ∷ ys) = ground (arith, e.same_iff x y, list_beq_iff xs ys)

  abbrev option_beq : Option A → Option A → Bool
  option_beq none none = true
  option_beq none (some y) = false
  option_beq (some x) none = false
  option_beq (some x) (some y) = x == y

  pub option_beq_iff : (a b : Option A) → (option_beq a b ≡ true) ↔ (a ≡ b)
  option_beq_iff none none = ground arith
  option_beq_iff none (some y) = ground arith
  option_beq_iff (some x) none = ground arith
  option_beq_iff (some x) (some y) = ground (arith, e.same_iff x y)

instance abbrev pub list_eq {ℓ} : {A : Type ℓ} ⦃e : Eq A⦄ → Eq (List A)
list_eq = record { same = list_beq; same_iff = list_beq_iff }

instance abbrev pub option_eq {ℓ} : {A : Type ℓ} ⦃e : Eq A⦄ → Eq (Option A)
option_eq = record { same = option_beq; same_iff = option_beq_iff }

module _ {ℓ κ} {A : Type ℓ} {B : Type κ} ⦃e : Eq A⦄ ⦃f : Eq B⦄ where
  abbrev pair_beq : A × B → A × B → Bool
  pair_beq (a, b) (c, d) = a == c && b == d

  pub pair_beq_iff : (p q : A × B) → (pair_beq p q ≡ true) ↔ (p ≡ q)
  pair_beq_iff (a, b) (c, d) = ground (arith, e.same_iff a c, f.same_iff b d)

  instance abbrev pub pair_eq : Eq (A × B)
  pair_eq = record { same = pair_beq; same_iff = pair_beq_iff }
