-- ===== src/Prelude/Lists.antt =====
-- Lists under Boolean tests: membership, filters, quantifiers, lengths.
use Prim.Native.Nat.{ℕ, suc, ◌+◌, ◌≤◌}
use mathlib.Core.Path.{◌≡◌, refl}
use mathlib.Core.Logic.{inl, inr}
use mathlib.Core.Bool.{Bool, true, false, not, ◌&&◌, ◌||◌}
use mathlib.Core.List.{List, [], ◌∷◌, ◌++◌, map}
use native.Mathlib.Omega.{arith}
use smart_bench.Prelude.Tests.{if◌then◌else◌, Bool-cases}
use smart_bench.Prelude.Classes.{Eq, ◌==◌, beq_refl}

module _ {ℓ} {A : Type ℓ} where
  abbrev pub length : List A → ℕ
  length [] = 0
  length (x ∷ xs) = suc (length xs)

  abbrev pub filter : (A → Bool) → List A → List A
  filter p [] = []
  filter p (x ∷ xs) = if p x then x ∷ filter p xs else filter p xs

  abbrev pub any : (A → Bool) → List A → Bool
  any p [] = false
  any p (x ∷ xs) = p x || any p xs

  abbrev pub all : (A → Bool) → List A → Bool
  all p [] = true
  all p (x ∷ xs) = p x && all p xs

  pub length-append : (xs ys : List A) → length (xs ++ ys) ≡ length xs + length ys
  length-append [] ys = omega arith
  length-append (x ∷ xs) ys = omega (arith, length-append xs ys)

  pub length-filter-le : (p : A → Bool) (xs : List A) → length (filter p xs) ≤ length xs
  length-filter-le p [] = omega arith
  length-filter-le p (x ∷ xs) = ground (arith, length-filter-le p xs)

  pub filter-append :
      (p : A → Bool) (xs ys : List A) → filter p (xs ++ ys) ≡ filter p xs ++ filter p ys
  filter-append p [] ys = refl
  filter-append p (x ∷ xs) ys = ground (arith, filter-append p xs ys)

  pub all-append : (p : A → Bool) (xs ys : List A) → all p (xs ++ ys) ≡ (all p xs && all p ys)
  all-append p [] ys = refl
  all-append p (x ∷ xs) ys = ground (arith, all-append p xs ys)

  pub any-append : (p : A → Bool) (xs ys : List A) → any p (xs ++ ys) ≡ (any p xs || any p ys)
  any-append p [] ys = refl
  any-append p (x ∷ xs) ys = ground (arith, any-append p xs ys)

module _ {ℓ} {A : Type ℓ} ⦃e : Eq A⦄ where
  abbrev pub contains : A → List A → Bool
  contains a [] = false
  contains a (x ∷ xs) = a == x || contains a xs

  pub contains-append :
      (a : A) (xs ys : List A) → contains a (xs ++ ys) ≡ (contains a xs || contains a ys)
  contains-append a [] ys = refl
  contains-append a (x ∷ xs) ys = ground (arith, contains-append a xs ys)

  pub contains-filter :
      (p : A → Bool) (a : A) (xs : List A) → contains a (filter p xs) ≡ (contains a xs && p a)
  contains-filter p a [] = refl
  contains-filter p a (x ∷ xs) = ground (arith, e.same_iff a x, contains-filter p a xs)

  pub all-contains :
      (p : A → Bool) (xs : List A) (a : A) → all p xs ≡ true → contains a xs ≡ true → p a ≡ true
  all-contains p [] a h m = cc
  all-contains p (x ∷ xs) a h m = ground (arith, e.same_iff a x, all-contains p xs a)

  pub all_of_contains :
      (p : A → Bool) (xs : List A) → ((a : A) → contains a xs ≡ true → p a ≡ true) → all p xs ≡ true
  all_of_contains p [] h = refl
  all_of_contains p (x ∷ xs) h =
      ground (arith, h x, beq_refl x, all_of_contains p xs (λ a m. h a (ground arith)))

  -- No element occurs twice.
  abbrev pub unique : List A → Bool
  unique [] = true
  unique (x ∷ xs) = not (contains x xs) && unique xs

  pub unique-snoc :
      (x : A) (xs : List A) → unique (xs ++ x ∷ []) ≡ (unique xs && not (contains x xs))
  unique-snoc x [] = refl
  unique-snoc x (y ∷ ys) =
      ground
        (arith, contains-append y ys (x ∷ []), unique-snoc x ys, e.same_iff x y, e.same_iff y x)

  pub unique-middle :
      (xs ys : List A) (x : A) → unique (xs ++ x ∷ ys) ≡ true → contains x xs ≡ false
  unique-middle [] ys x h = refl
  unique-middle (y ∷ xs) ys x h =
      ground (
        arith,
        contains-append y xs (x ∷ ys),
        unique-middle xs ys x,
        e.same_iff x y,
        e.same_iff y x,
      )

  -- An element at which a test passes.
  pub any-contains :
      (p : A → Bool) (xs : List A)
      → any p xs ≡ true
      → (a : A) × (contains a xs ≡ true) × (p a ≡ true)
  any-contains p [] h = absurd (cc)
  any-contains p (x ∷ xs) h = elim (Bool-cases (p x)) [
    | inl hit ↦ (x, ground (arith, beq_refl x), hit)
    | inr miss ↦ later (any-contains p xs (ground arith))
  ]
    where
      later :
          (a : A) × (contains a xs ≡ true) × (p a ≡ true)
          → (a : A) × (contains a (x ∷ xs) ≡ true) × (p a ≡ true)
      later (a, m, q) = (a, ground arith, q)

  pub any_of_contains :
      (p : A → Bool) (xs : List A) (a : A) → contains a xs ≡ true → p a ≡ true → any p xs ≡ true
  any_of_contains p [] a m h = absurd (cc)
  any_of_contains p (x ∷ xs) a m h = ground (arith, e.same_iff a x, any_of_contains p xs a)

module _ {ℓ κ} {A : Type ℓ} {B : Type κ} ⦃e : Eq A⦄ ⦃f : Eq B⦄ where
  pub contains-map :
      (g : A → B) (a : A) (xs : List A) → contains a xs ≡ true → contains (g a) (map g xs) ≡ true
  contains-map g a [] m = absurd (cc)
  contains-map g a (x ∷ xs) m =
      ground (arith, e.same_iff a x, f.same_iff (g a) (g x), contains-map g a xs)

  pub contains-map_inv :
      (g : A → B) (b : B) (xs : List A)
      → contains b (map g xs) ≡ true
      → (a : A) × (contains a xs ≡ true) × (g a ≡ b)
  contains-map_inv g b [] m = absurd (cc)
  contains-map_inv g b (x ∷ xs) m = elim (Bool-cases (b == g x)) [
    | inl hit ↦ (x, ground (arith, beq_refl x), ground (arith, f.same_iff b (g x)))
    | inr miss ↦ later (contains-map_inv g b xs (ground arith))
  ]
    where
      later :
          (a : A) × (contains a xs ≡ true) × (g a ≡ b)
          → (a : A) × (contains a (x ∷ xs) ≡ true) × (g a ≡ b)
      later (a, m, q) = (a, ground arith, q)
