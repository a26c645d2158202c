-- ===== src/Search/Fuel.antt =====
-- How many of a list of states are not visited.
use smart_bench.Prelude.{
  ℕ, ◌≡◌, ◌≤◌, ◌<◌, true, false, not, List, [], ◌∷◌, arith, Eq, contains, length, filter,
  length-filter-le,
}

module _ {ℓ} {A : Type ℓ} ⦃e : Eq A⦄ where
  unfoldable pub remaining : List A → List A → ℕ
  remaining nodes v = length (filter (λ n. not (contains n v)) nodes)

  pub remaining-le :
      (nodes : List A) (x : A) (v : List A) → remaining nodes (x ∷ v) ≤ remaining nodes v
  unfolding remaining
  remaining-le [] x v = omega arith
  remaining-le (n ∷ nodes) x v = ground (arith, remaining-le nodes x v)

  -- Marking an unvisited state of the list leaves fewer.
  pub remaining-lt :
      (nodes : List A) (x : A) (v : List A)
      → contains x nodes ≡ true
      → contains x v ≡ false
      → remaining nodes (x ∷ v) < remaining nodes v
  unfolding remaining
  remaining-lt [] x v m new = absurd (cc)
  remaining-lt (n ∷ nodes) x v m new =
      ground (arith, e.same_iff x n, e.same_iff n x, remaining-lt nodes x v, remaining-le nodes x v)

  pub remaining-le_length : (nodes v : List A) → remaining nodes v ≤ length nodes
  unfolding remaining
  remaining-le_length nodes v = length-filter-le (λ n. not (contains n v)) nodes
