-- ===== src/Prelude/Sort.antt =====
-- Python's stable `sorted` by a total preorder given as a Boolean test, and the order on texts.
use Prim.Native.Nat.{Ordering}
use Prim.Native.String.{String, compare}
use mathlib.Core.Path.{◌≡◌, refl}
use mathlib.Core.Bool.{Bool, true, false}
use mathlib.Core.List.{List, [], ◌∷◌, map}
use native.Mathlib.Omega.{arith}
use smart_bench.Prelude.Tests.{if◌then◌else◌}
use smart_bench.Prelude.Classes.{Eq}
use smart_bench.Prelude.Lists.{contains, length, unique}

-- The outcome of a comparison of tuples: the first component that differs decides.
abbrev pub then_compare : Ordering → Ordering → Ordering
then_compare Ordering.eq o = o
then_compare Ordering.lt o = Ordering.lt
then_compare Ordering.gt o = Ordering.gt

abbrev pub is_le : Ordering → Bool
is_le Ordering.gt = false
is_le _ = true

abbrev pub str_compare : String → String → Ordering
str_compare = compare

abbrev pub str_leb : String → String → Bool
str_leb a b = is_le (compare a b)

module _ {ℓ} {A : Type ℓ} (le : A → A → Bool) where
  unfoldable pub insert_sorted : A → List A → List A
  insert_sorted a [] = a ∷ []
  insert_sorted a (x ∷ xs) = if le a x then a ∷ x ∷ xs else x ∷ insert_sorted a xs

  unfoldable pub sorted : List A → List A
  unfolding insert_sorted
  sorted [] = []
  sorted (x ∷ xs) = insert_sorted x (sorted xs)

  length-insert_sorted : (a : A) (xs : List A) → length (insert_sorted a xs) ≡ length (a ∷ xs)
  unfolding insert_sorted
  length-insert_sorted a [] = refl
  length-insert_sorted a (x ∷ xs) = ground (arith, length-insert_sorted a xs)

  pub length-sorted : (xs : List A) → length (sorted xs) ≡ length xs
  unfolding sorted
  length-sorted [] = refl
  length-sorted (x ∷ xs) = ground (arith, length-insert_sorted x (sorted xs), length-sorted xs)

module _ {ℓ} {A : Type ℓ} ⦃e : Eq A⦄ (le : A → A → Bool) where
  contains-insert_sorted :
      (b a : A) (xs : List A) → contains b (insert_sorted le a xs) ≡ contains b (a ∷ xs)
  unfolding insert_sorted
  contains-insert_sorted b a [] = refl
  contains-insert_sorted b a (x ∷ xs) = ground (arith, contains-insert_sorted b a xs)

  -- Sorting neither adds nor loses an element.
  pub contains-sorted : (b : A) (xs : List A) → contains b (sorted le xs) ≡ contains b xs
  unfolding sorted
  contains-sorted b [] = refl
  contains-sorted b (x ∷ xs) =
      ground (arith, contains-insert_sorted b x (sorted le xs), contains-sorted b xs)

module _ {ℓ κ} {A : Type ℓ} {B : Type κ} ⦃e : Eq B⦄ (le : A → A → Bool) where
  contains-map-insert_sorted :
      (f : A → B) (b : B) (a : A) (xs : List A)
      → contains b (map f (insert_sorted le a xs)) ≡ contains b (map f (a ∷ xs))
  unfolding insert_sorted
  contains-map-insert_sorted f b a [] = refl
  contains-map-insert_sorted f b a (x ∷ xs) = ground (arith, contains-map-insert_sorted f b a xs)

  pub contains-map-sorted :
      (f : A → B) (b : B) (xs : List A) → contains b (map f (sorted le xs)) ≡ contains b (map f xs)
  unfolding sorted
  contains-map-sorted f b [] = refl
  contains-map-sorted f b (x ∷ xs) =
      ground (arith, contains-map-insert_sorted f b x (sorted le xs), contains-map-sorted f b xs)

module _ {ℓ κ} {A : Type ℓ} {B : Type κ} ⦃e : Eq B⦄ (le : A → A → Bool) where
  unique-map-insert_sorted :
      (f : A → B) (a : A) (xs : List A)
      → unique (map f (insert_sorted le a xs)) ≡ unique (map f (a ∷ xs))
  unfolding insert_sorted
  unique-map-insert_sorted f a [] = refl
  unique-map-insert_sorted f a (x ∷ xs) = ground (
    arith,
    unique-map-insert_sorted f a xs,
    contains-map-insert_sorted le f (f x) a xs,
    e.same_iff (f a) (f x),
    e.same_iff (f x) (f a),
  )

  pub unique-map-sorted :
      (f : A → B) (xs : List A) → unique (map f (sorted le xs)) ≡ unique (map f xs)
  unfolding sorted
  unique-map-sorted f [] = refl
  unique-map-sorted f (x ∷ xs) = ground (
    arith,
    unique-map-insert_sorted f x (sorted le xs),
    contains-map-sorted le f (f x) xs,
    unique-map-sorted f xs,
  )
