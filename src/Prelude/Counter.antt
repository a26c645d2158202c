-- ===== src/Prelude/Counter.antt =====
-- Python's `collections.Counter`: how often each element occurs, in the order of first occurrence.
use Prim.Native.Nat.{ℕ, suc, ◌+◌}
use mathlib.Core.Path.{◌≡◌, ◌∙◌}
use mathlib.Core.Bool.{true, ◌||◌}
use mathlib.Core.List.{List, [], ◌∷◌}
use native.Mathlib.Omega.{arith}
use smart_bench.Prelude.Tests.{if◌then◌else◌}
use smart_bench.Prelude.Classes.{Eq, ◌==◌}
use smart_bench.Prelude.Lists.{contains, unique, unique-snoc}
use smart_bench.Prelude.Dict.{
  Dict, get, get_or, insert, has_key, keys, values, get_or-insert, keys-insert, has_key-keys,
  has_key-insert,
}

abbrev pub total : List ℕ → ℕ
total [] = 0
total (n ∷ ns) = n + total ns

module _ {ℓ} {K : Type ℓ} ⦃e : Eq K⦄ where
  -- `counter[key] += 1`
  unfoldable pub tally : Dict K ℕ → K → Dict K ℕ
  tally d k = insert d k (suc (get_or d k 0))

  unfoldable pub tallies : Dict K ℕ → List K → Dict K ℕ
  unfolding tally
  tallies d [] = d
  tallies d (x ∷ xs) = tallies (tally d x) xs

  -- `Counter(xs)`
  unfoldable pub counter : List K → Dict K ℕ
  unfolding tallies
  counter xs = tallies [] xs

  abbrev pub occurrences : K → List K → ℕ
  occurrences k [] = 0
  occurrences k (x ∷ xs) = if x == k then suc (occurrences k xs) else occurrences k xs

  pub get_or-tally :
      (d : Dict K ℕ) (x k : K)
      → get_or (tally d x) k 0 ≡ (if x == k then suc (get_or d k 0) else get_or d k 0)
  unfolding tally
  get_or-tally d x k = ground (arith, get_or-insert d x k (suc (get_or d x 0)) 0, e.same_iff x k)

  pub get_or-tallies :
      (d : Dict K ℕ) (xs : List K) (k : K)
      → get_or (tallies d xs) k 0 ≡ get_or d k 0 + occurrences k xs
  unfolding tallies
  get_or-tallies d [] k = omega arith
  get_or-tallies d (x ∷ xs) k = ground (arith, get_or-tallies (tally d x) xs k, get_or-tally d x k)

  -- One more in total.
  pub total-tally : (d : Dict K ℕ) (x : K) → total (values (tally d x)) ≡ suc (total (values d))
  unfolding tally insert get_or get
  total-tally [] x = omega arith
  total-tally ((j, n) ∷ d) x = ground (arith, total-tally d x)

  -- The counts are the occurrences.
  pub get_or-counter : (xs : List K) (k : K) → get_or (counter xs) k 0 ≡ occurrences k xs
  unfolding counter get_or get
  get_or-counter xs k = get_or-tallies [] xs k ∙ omega arith

  unique-tally : (d : Dict K ℕ) (x : K) → unique (keys d) ≡ true → unique (keys (tally d x)) ≡ true
  unfolding tally
  unique-tally d x u =
      ground (arith, keys-insert d x (suc (get_or d x 0)), has_key-keys d x, unique-snoc x (keys d))

  contains-tally : (d : Dict K ℕ) (x k : K) → has_key (tally d x) k ≡ (k == x || has_key d k)
  unfolding tally
  contains-tally d x k =
      ground (arith, has_key-insert d x k (suc (get_or d x 0)), e.same_iff k x, e.same_iff x k)

  pub unique-tallies :
      (d : Dict K ℕ) (xs : List K) → unique (keys d) ≡ true → unique (keys (tallies d xs)) ≡ true
  unfolding tallies
  unique-tallies d [] u = u
  unique-tallies d (x ∷ xs) u = unique-tallies (tally d x) xs (unique-tally d x u)

  pub has_key-tallies :
      (d : Dict K ℕ) (xs : List K) (k : K)
      → has_key (tallies d xs) k ≡ (has_key d k || contains k xs)
  unfolding tallies
  has_key-tallies d [] k = ground arith
  has_key-tallies d (x ∷ xs) k =
      ground (arith, has_key-tallies (tally d x) xs k, contains-tally d x k)
