-- ===== src/Prelude/Members.antt =====
-- Membership with evidence, for types without a Boolean equality, and lists joined over a list.
use mathlib.Core.Path.{◌≡◌, refl, sym, ap, subst}
use mathlib.Core.Bool.{Bool, true, false}
use mathlib.Core.List.{List, [], ◌∷◌, ◌++◌, map}
use smart_bench.Prelude.Tests.{if◌then◌else◌, Bool-cases, and_left, and_right, and_intro}
use Prim.Native.Nat.{suc}
use smart_bench.Prelude.Lists.{filter, all, length}
use smart_bench.Prelude.Sort.{sorted, insert_sorted}
use mathlib.Core.Logic.{◌≢◌, ◌↔◌, ◌⊎◌, inl, inr}

pub data IsIn {ℓ} {A : Type ℓ} (a : A) : List A → Type ℓ where
  here : {xs : List A} → IsIn a (a ∷ xs)
  there : {x : A} {xs : List A} → IsIn a xs → IsIn a (x ∷ xs)

module _ {ℓ} {A : Type ℓ} where
  pub IsIn-append : {a : A} (xs ys : List A) → IsIn a (xs ++ ys) → IsIn a xs ⊎ IsIn a ys
  IsIn-append [] ys m = inr m
  IsIn-append (x ∷ xs) ys here = inl here
  IsIn-append (x ∷ xs) ys (there m) = elim (IsIn-append xs ys m) [
    | inl k ↦ inl (there k)
    | inr k ↦ inr k
  ]

  pub IsIn-left : {a : A} {xs : List A} (ys : List A) → IsIn a xs → IsIn a (xs ++ ys)
  IsIn-left ys here = here
  IsIn-left ys (there m) = there (IsIn-left ys m)

  pub IsIn-right : {a : A} (xs : List A) {ys : List A} → IsIn a ys → IsIn a (xs ++ ys)
  IsIn-right [] m = m
  IsIn-right (x ∷ xs) m = there (IsIn-right xs m)

  pub IsIn-head : {a x : A} {xs : List A} → IsIn a (x ∷ xs) → (a ≡ x) ⊎ IsIn a xs
  IsIn-head here = inl refl
  IsIn-head (there m) = inr m

  IsIn-if :
      {a x : A} {xs : List A} (b : Bool)
      → IsIn a (if b then x ∷ xs else xs)
      → ((a ≡ x) × (b ≡ true)) ⊎ IsIn a xs
  IsIn-if true m = elim (IsIn-head m) [ inl e ↦ inl (e, refl) | inr k ↦ inr k ]
  IsIn-if false m = inr m

  pub IsIn-filter :
      (p : A → Bool) {a : A} (xs : List A) → IsIn a (filter p xs) → IsIn a xs × (p a ≡ true)
  IsIn-filter p [] m = elim m [ ]
  IsIn-filter p {a = a} (x ∷ xs) m = elim (IsIn-if (p x) m) [
    | inl e ↦ (subst (λ y. IsIn y (x ∷ xs)) (sym e.0) here, subst (λ y. p y ≡ true) (sym e.0) e.1)
    | inr k ↦ (there (IsIn-filter p xs k).0, (IsIn-filter p {a = a} xs k).1)
  ]

  pub IsIn-filtered :
      (p : A → Bool) {a : A} {xs : List A} → IsIn a xs → p a ≡ true → IsIn a (filter p xs)
  IsIn-filtered p here h = rw (h) here
  IsIn-filtered p (there {x} {xs} m) h = elim (Bool-cases (p x)) [
    | inl e ↦ rw (e) (there (IsIn-filtered p m h))
    | inr e ↦ rw (e) (IsIn-filtered p m h)
  ]

  -- A filtered list is empty exactly if no member passes.
  pub filter_empty :
      (p : A → Bool) (xs : List A) → filter p xs ≡ [] → (a : A) → IsIn a xs → p a ≢ true
  filter_empty p xs h a m k = elim (subst (IsIn a) h (IsIn-filtered p m k)) [ ]

  pub filter_cons :
      (p : A → Bool) (xs : List A) {y : A} {ys : List A}
      → filter p xs ≡ y ∷ ys
      → IsIn y xs × (p y ≡ true)
  filter_cons p xs {y} h = IsIn-filter p xs (subst (IsIn y) (sym h) here)

module _ {ℓ κ} {A : Type ℓ} {B : Type κ} where
  abbrev pub flat_map : (A → List B) → List A → List B
  flat_map f [] = []
  flat_map f (x ∷ xs) = f x ++ flat_map f xs

  pub IsIn-flat_map :
      (f : A → List B) {b : B} (xs : List A)
      → IsIn b (flat_map f xs)
      → (a : A) × IsIn a xs × IsIn b (f a)
  IsIn-flat_map f {b = b} [] m = elim m [ ]
  IsIn-flat_map f (x ∷ xs) m = elim (IsIn-append (f x) (flat_map f xs) m) [
    | inl k ↦ (x, here, k)
    | inr k ↦ let (a, i, j) = IsIn-flat_map f xs k in (a, there i, j)
  ]

  pub IsIn-flat_mapped :
      (f : A → List B) {a : A} {b : B} {xs : List A}
      → IsIn a xs
      → IsIn b (f a)
      → IsIn b (flat_map f xs)
  IsIn-flat_mapped f {a} (here {xs}) k = IsIn-left (flat_map f xs) k
  IsIn-flat_mapped f (there {x} m) k = IsIn-right (f x) (IsIn-flat_mapped f m k)

-- Sorting keeps the members.
module _ {ℓ} {A : Type ℓ} (le : A → A → Bool) where
  inserted :
      {a : A} (x y : A) (ys zs : List A) (b : Bool)
      → IsIn a (if b then x ∷ y ∷ ys else y ∷ zs)
      → (IsIn a zs → IsIn a (x ∷ ys))
      → IsIn a (x ∷ y ∷ ys)
  inserted x y ys zs true q k = q
  inserted x y ys zs false here k = there here
  inserted x y ys zs false (there q) k = elim (IsIn-head (k q)) [
    | inl e ↦ subst (λ z. IsIn z (x ∷ y ∷ ys)) (sym e) here
    | inr r ↦ there (there r)
  ]

  IsIn-insert_sorted :
      {a : A} (x : A) (xs : List A) → IsIn a (insert_sorted le x xs) → IsIn a (x ∷ xs)
  unfolding insert_sorted
  IsIn-insert_sorted x [] m = m
  IsIn-insert_sorted {a} x (y ∷ ys) m =
      inserted x y ys (insert_sorted le x ys) (le x y) m (IsIn-insert_sorted {a = a} x ys)

  placed :
      {a : A} (x y : A) (ys zs : List A) (b : Bool)
      → IsIn a (x ∷ y ∷ ys)
      → (IsIn a (x ∷ ys) → IsIn a zs)
      → IsIn a (if b then x ∷ y ∷ ys else y ∷ zs)
  placed x y ys zs true q k = q
  placed x y ys zs false here k = there (k here)
  placed x y ys zs false (there here) k = here
  placed x y ys zs false (there (there q)) k = there (k (there q))

  insert_sorted-IsIn :
      {a : A} (x : A) (xs : List A) → IsIn a (x ∷ xs) → IsIn a (insert_sorted le x xs)
  unfolding insert_sorted
  insert_sorted-IsIn x [] m = m
  insert_sorted-IsIn {a} x (y ∷ ys) m =
      placed x y ys (insert_sorted le x ys) (le x y) m (insert_sorted-IsIn {a = a} x ys)

  pub IsIn-sorted : {a : A} {xs : List A} → IsIn a (sorted le xs) → IsIn a xs
  unfolding sorted
  IsIn-sorted {xs = []} m = m
  IsIn-sorted {xs = x ∷ xs} m = elim (IsIn-head (IsIn-insert_sorted x (sorted le xs) m)) [
    | inl e ↦ subst (λ z. IsIn z (x ∷ xs)) (sym e) here
    | inr r ↦ there (IsIn-sorted {xs = xs} r)
  ]

  pub IsIn-sorted_back : {a : A} {xs : List A} → IsIn a xs → IsIn a (sorted le xs)
  unfolding sorted
  IsIn-sorted_back {a} (here {xs}) = insert_sorted-IsIn a (sorted le xs) here
  IsIn-sorted_back (there {x} {xs} m) =
      insert_sorted-IsIn x (sorted le xs) (there (IsIn-sorted_back m))

pub all_iff {ℓ} :
    {A : Type ℓ} (p : A → Bool) (xs : List A)
    → (all p xs ≡ true) ↔ ((a : A) → IsIn a xs → p a ≡ true)
all_iff p [] = (λ h a m. elim m [ ], λ f. refl)
all_iff {A} p (x ∷ xs) =
    let (f, g) = all_iff p xs in
    (
      λ h a m. elim (IsIn-head m) [
        | inl e ↦ subst (λ y. p y ≡ true) (sym e) (and_left (p x) (all p xs) h)
        | inr k ↦ f (and_right (p x) (all p xs) h) a k
      ],
      λ h. and_intro (h x here) (g (λ a m. h a (there m))),
    )

-- Two equivalences in a row.
pub iff_trans {ℓ κ μ} : {A : Type ℓ} {B : Type κ} {C : Type μ} → (A ↔ B) → (B ↔ C) → A ↔ C
iff_trans (f, g) (h, k) = (λ a. h (f a), λ c. g (k c))

pub IsIn-map {ℓ κ} :
    {A : Type ℓ} {B : Type κ} (f : A → B) {a : A} {xs : List A} → IsIn a xs → IsIn (f a) (map f xs)
IsIn-map f here = here
IsIn-map f (there m) = there (IsIn-map f m)

pub IsIn-map_back {ℓ κ} :
    {A : Type ℓ} {B : Type κ} (f : A → B) {b : B} (xs : List A)
    → IsIn b (map f xs)
    → (a : A) × IsIn a xs × (b ≡ f a)
IsIn-map_back f [] m = elim m [ ]
IsIn-map_back f (x ∷ xs) m = elim (IsIn-head m) [
  | inl e ↦ (x, here, e)
  | inr k ↦ let (a, i, e) = IsIn-map_back f xs k in (a, there i, e)
]

pub length-map {ℓ κ} :
    {A : Type ℓ} {B : Type κ} (f : A → B) (xs : List A) → length (map f xs) ≡ length xs
length-map f [] = refl
length-map f (x ∷ xs) = ap suc (length-map f xs)
