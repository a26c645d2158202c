-- ===== src/ControlFlow/Dominators/Sets.antt =====
-- One update of one set: what it holds, that it is monotone, and that a change loses an element.
use smart_bench.Prelude.{
  ℕ, ◌≤◌, ◌<◌, String, ◌≡◌, refl, Bool, true, false, ◌&&◌, ◌||◌, List, [], ◌∷◌, ◌==◌, string_eq,
  contains, contains-filter, filter, all, all-contains, all_of_contains, length, arith, beq_refl,
  Bool-cases, inl, inr,
}
use smart_bench.Prelude.Dict
use smart_bench.ControlFlow.Dominators.Loop.{DominatorSets, updated, same_set}

-- Inclusion of sets given as lists.
abbrev pub Sub : List String → List String → Type 0
Sub xs ys = (x : String) → contains x xs ≡ true → contains x ys ≡ true

abbrev pub at : DominatorSets → String → List String
at d n = Dict.get_or d n []

abbrev pub nonempty : List String → Bool
nonempty [] = false
nonempty (p ∷ ps) = true

pub contains-updated :
    (d : DominatorSets) (n : String) (ps : List String) (x : String)
    → contains x (updated d n ps) ≡ (x == n || (nonempty ps && all (λ q. contains x (at d q)) ps))
unfolding updated
contains-updated d n [] x = ground arith
contains-updated d n (p ∷ ps) x =
    ground (arith, contains-filter (λ y. all (λ q. contains y (at d q)) ps) x (at d p))

-- Smaller sets give smaller updates.
all_mono :
    (d d' : DominatorSets) (x : String) (ps : List String)
    → ((m : String) → Sub (at d' m) (at d m))
    → all (λ q. contains x (at d' q)) ps ≡ true
    → all (λ q. contains x (at d q)) ps ≡ true
all_mono d d' x [] h k = refl
all_mono d d' x (p ∷ ps) h k = ground (arith, h p x, all_mono d d' x ps h)

pub updated-mono :
    (d d' : DominatorSets) (n : String) (ps : List String)
    → ((m : String) → Sub (at d' m) (at d m))
    → Sub (updated d' n ps) (updated d n ps)
updated-mono d d' n ps h x k =
    ground (arith, contains-updated d n ps x, contains-updated d' n ps x, all_mono d d' x ps h)

-- A test that fails on some element.
pub all-false :
    (p : String → Bool) (xs : List String)
    → all p xs ≡ false
    → (x : String) × (contains x xs ≡ true) × (p x ≡ false)
all-false p [] h = absurd (cc)
all-false p (x ∷ xs) h = elim (Bool-cases (p x)) [
  | inl hit ↦ later (all-false p xs (ground arith))
  | inr miss ↦ (x, ground (arith, beq_refl x), miss)
]
  where
    later :
        (y : String) × (contains y xs ≡ true) × (p y ≡ false)
        → (y : String) × (contains y (x ∷ xs) ≡ true) × (p y ≡ false)
    later (y, m, q) = (y, ground arith, q)

pub same_set_sub : (xs ys : List String) → same_set xs ys ≡ true → Sub ys xs
unfolding same_set
same_set_sub xs ys h x m = all-contains (λ y. contains y xs) ys x (ground arith) m

pub same_set_sub' : (xs ys : List String) → same_set xs ys ≡ true → Sub xs ys
unfolding same_set
same_set_sub' xs ys h x m = all-contains (λ y. contains y ys) xs x (ground arith) m

-- A set that differs from a larger one lacks an element of it.
pub lost :
    (xs ys : List String)
    → Sub xs ys
    → same_set xs ys ≡ false
    → (x : String) × (contains x ys ≡ true) × (contains x xs ≡ false)
unfolding same_set
lost xs ys h e =
    all-false (λ y. contains y xs) ys (ground (arith, all_of_contains (λ x. contains x ys) xs h))

-- How many of the operations a set holds.
pub weight : List String → List String → ℕ
weight nodes xs = length (filter (λ m. contains m xs) nodes)

pub weight_mono : (nodes xs ys : List String) → Sub xs ys → weight nodes xs ≤ weight nodes ys
unfolding weight
weight_mono [] xs ys h = omega arith
weight_mono (n ∷ nodes) xs ys h = ground (arith, h n, weight_mono nodes xs ys h)

pub weight-lt :
    (nodes xs ys : List String) (x : String)
    → Sub xs ys
    → contains x nodes ≡ true
    → contains x ys ≡ true
    → contains x xs ≡ false
    → weight nodes xs < weight nodes ys
unfolding weight
weight-lt [] xs ys x h m k l = absurd (cc)
weight-lt (n ∷ nodes) xs ys x h m k l =
    ground
      (arith, h n, string_eq.same_iff x n, weight_mono nodes xs ys h, weight-lt nodes xs ys x h)

pub weight-le : (nodes xs : List String) → weight nodes xs ≤ length nodes
unfolding weight
weight-le [] xs = omega arith
weight-le (n ∷ nodes) xs = ground (arith, weight-le nodes xs)
