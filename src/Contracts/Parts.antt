-- ===== src/Contracts/Parts.antt =====
-- The single tests of the validation of smartbench/ir/contracts.py against the shapes that they ask for.
use smart_bench.Prelude.{
  ℕ, zero, suc, String, ◌≡◌, ◌≢◌, ◌↔◌, ◌⊎◌, inl, inr, refl, sym, ap, subst, ◌∙◌, Bool, true, false,
  not, Option, none, some, List, [], ◌∷◌, ◌++◌, ◌==◌, string_eq, nat_eq, length, map, any, arith,
  IsIn, here, there, IsIn-head, ap₂, iff_trans,
}
use smart_bench.Ir.Values.{Value, PyText, null, bool, int, neg_int, str, arr, obj, other}
use smart_bench.Ir.Operations.{SemanticOperation}
use smart_bench.Debate.Gate.{lookup}
use smart_bench.Contracts.Views.{attribute, text_or, binding_contract}
use smart_bench.Contracts.Validate.{
  is_text, is_text_or_absent, is_some_text, is_some_bool, list_value, unless, entry_errors,
  require_string_list, is_empty, position_errors, binding_errors, bindings_errors, list_errors,
  alignment_errors,
}
use smart_bench.Contracts.Shapes.{
  IsTextList, IsTextOrAbsent, IsText, IsBool, IsPosition, counted, unplaced, IsBinding, IsAligned,
}

-- Two lists of errors together are empty exactly if both are.
pub both_iff {ℓ κ} :
    {A : Type ℓ} {B : Type κ} (xs ys : List String)
    → ((xs ≡ []) ↔ A)
    → ((ys ≡ []) ↔ B)
    → (xs ++ ys ≡ []) ↔ (A × B)
both_iff [] ys (f, g) (h, k) = (λ e. (f refl, h e), λ (a, b). k b)
both_iff (x ∷ xs) ys (f, g) (h, k) = (λ e. absurd (cc), λ (a, b). absurd (cc (g a)))

pub unless_iff : (b : Bool) (s : String) → (unless b s ≡ []) ↔ (b ≡ true)
unless_iff true s = (λ e. refl, λ e. refl)
unless_iff false s = (λ e. absurd (cc), λ e. absurd (cc))

abbrev pub of_unless {ℓ} :
    {A : Type ℓ} (b : Bool) (s : String) → ((b ≡ true) ↔ A) → (unless b s ≡ []) ↔ A
of_unless b s i = iff_trans (unless_iff b s) i

is_text_iff : (v : Value) → (is_text v ≡ true) ↔ ((s : String) × (v ≡ str s))
is_text_iff (str s) = (λ e. (s, refl), λ e. refl)
is_text_iff null = (λ e. absurd (cc), λ (s, e). absurd (cc))
is_text_iff (bool b) = (λ e. absurd (cc), λ (s, e). absurd (cc))
is_text_iff (int n) = (λ e. absurd (cc), λ (s, e). absurd (cc))
is_text_iff (neg_int n) = (λ e. absurd (cc), λ (s, e). absurd (cc))
is_text_iff (arr xs) = (λ e. absurd (cc), λ (s, e). absurd (cc))
is_text_iff (obj fs) = (λ e. absurd (cc), λ (s, e). absurd (cc))
is_text_iff (other n) = (λ e. absurd (cc), λ (s, e). absurd (cc))

pub is_text_or_absent_iff : (v : Option Value) → (is_text_or_absent v ≡ true) ↔ IsTextOrAbsent v
is_text_or_absent_iff none = (λ e w p. absurd (cc), λ h. refl)
is_text_or_absent_iff (some v) = (
  λ e w p. (is_text_iff w).0 (subst (λ u. is_text_or_absent u ≡ true) p e),
  λ h. (is_text_iff v).1 (h v refl),
)

pub is_some_text_iff : (v : Option Value) → (is_some_text v ≡ true) ↔ IsText v
is_some_text_iff none = (λ e. absurd (cc), λ (s, e). absurd (cc))
is_some_text_iff (some v) = (
  λ e. let (s, p) = (is_text_iff v).0 e in (s, ap some p),
  λ (s, p). subst (λ u. is_some_text u ≡ true) (sym p) refl,
)

pub is_some_bool_iff : (v : Option Value) → (is_some_bool v ≡ true) ↔ IsBool v
is_some_bool_iff v = (to v, λ (b, p). subst (λ u. is_some_bool u ≡ true) (sym p) refl)
  where
    to : (u : Option Value) → is_some_bool u ≡ true → IsBool u
    to (some (bool b)) e = (b, refl)
    to (some null) e = absurd (cc)
    to (some (int n)) e = absurd (cc)
    to (some (neg_int n)) e = absurd (cc)
    to (some (str s)) e = absurd (cc)
    to (some (arr xs)) e = absurd (cc)
    to (some (obj fs)) e = absurd (cc)
    to (some (other n)) e = absurd (cc)
    to none e = absurd (cc)

pub position_errors_iff : (v : Option Value) → (position_errors v ≡ []) ↔ IsPosition v
position_errors_iff v = (to v, from)
  where
    to : (u : Option Value) → position_errors u ≡ [] → IsPosition u
    to (some (int n)) e = counted n
    to (some (neg_int zero)) e = unplaced
    to (some (neg_int (suc n))) e = absurd (ground arith)
    to (some null) e = absurd (cc)
    to (some (bool b)) e = absurd (cc)
    to (some (str s)) e = absurd (cc)
    to (some (arr xs)) e = absurd (cc)
    to (some (obj fs)) e = absurd (cc)
    to (some (other n)) e = absurd (cc)
    to none e = absurd (cc)

    from : {u : Option Value} → IsPosition u → position_errors u ≡ []
    from (counted n) = refl
    from unplaced = refl

texts_iff :
    (vs : List Value)
    → (not (any (λ v. not (is_text v)) vs) ≡ true) ↔ ((xs : List String) × (vs ≡ map str xs))
texts_iff [] = (λ e. ([], refl), λ h. refl)
texts_iff (v ∷ vs) = (to (texts_iff vs), from (texts_iff vs))
  where
    to :
        ((not (any (λ v. not (is_text v)) vs) ≡ true) ↔ ((xs : List String) × (vs ≡ map str xs)))
        → not (any (λ v. not (is_text v)) (v ∷ vs)) ≡ true
        → (xs : List String) × (v ∷ vs ≡ map str xs)
    to (f, g) e =
        let (s, p) = (is_text_iff v).0 (ground arith) in
        let (xs, q) = f (ground arith) in (s ∷ xs, ap₂ (λ a b. a ∷ b) p q)

    from :
        ((not (any (λ v. not (is_text v)) vs) ≡ true) ↔ ((xs : List String) × (vs ≡ map str xs)))
        → (xs : List String) × (v ∷ vs ≡ map str xs)
        → not (any (λ v. not (is_text v)) (v ∷ vs)) ≡ true
    from (f, g) ([], e) = absurd (cc)
    from (f, g) (s ∷ xs, e) = ground (arith, (is_text_iff v).1 (s, cc), g (xs, cc))

entry_errors_iff :
    (key : String) (l : Option (List Value))
    → (entry_errors key l ≡ []) ↔ ((xs : List String) × (l ≡ some (map str xs)))
entry_errors_iff key none = (λ e. absurd (cc), λ (xs, e). absurd (cc))
entry_errors_iff key (some vs) =
    of_unless (not (any (λ v. not (is_text v)) vs)) _ (
      λ e. let (xs, p) = (texts_iff vs).0 e in (xs, ap some p),
      λ (xs, p). (texts_iff vs).1 (xs, cc),
    )

pub require_string_list_iff :
    (o : SemanticOperation) (key : String) → (require_string_list o key ≡ []) ↔ IsTextList o key
unfolding require_string_list
require_string_list_iff o key = entry_errors_iff key (list_value (attribute o key))

pub named_iff : (s : String) → (not (is_empty s) ≡ true) ↔ (s ≢ "")
named_iff s = ground (arith, string_eq.same_iff s "")

pub alignment_errors_iff : (a b : Option (List Value)) → (alignment_errors a b ≡ []) ↔ IsAligned a b
alignment_errors_iff none b = (λ e xs ys p q. absurd (cc), λ h. refl)
alignment_errors_iff (some xs) none = (λ e us vs p q. absurd (cc), λ h. refl)
alignment_errors_iff (some xs) (some ys) = of_unless (length xs == length ys) _ (
  λ e us vs p q. ap length (cc) ∙ (nat_eq.same_iff _ _).0 e ∙ ap length (cc),
  λ h. (nat_eq.same_iff _ _).1 (h xs ys refl refl),
)

binding_errors_iff :
    (py : PyText) (index : ℕ) (v : Value)
    → (binding_errors py index (binding_contract py v) ≡ []) ↔ IsBinding py v
unfolding binding_contract
binding_errors_iff py index (obj fs) =
    of_unless (not (is_empty (text_or py (lookup fs "target") ""))) _ (
      iff_trans (named_iff (text_or py (lookup fs "target") "")) (
        λ h. (fs, refl, h),
        λ (gs, e, h). subst (λ ks. text_or py (lookup ks "target") "" ≢ "") (cc) h,
      ))
binding_errors_iff py index null = (λ e. absurd (cc), λ (fs, e, h). absurd (cc))
binding_errors_iff py index (bool b) = (λ e. absurd (cc), λ (fs, e, h). absurd (cc))
binding_errors_iff py index (int n) = (λ e. absurd (cc), λ (fs, e, h). absurd (cc))
binding_errors_iff py index (neg_int n) = (λ e. absurd (cc), λ (fs, e, h). absurd (cc))
binding_errors_iff py index (str s) = (λ e. absurd (cc), λ (fs, e, h). absurd (cc))
binding_errors_iff py index (arr xs) = (λ e. absurd (cc), λ (fs, e, h). absurd (cc))
binding_errors_iff py index (other n) = (λ e. absurd (cc), λ (fs, e, h). absurd (cc))

pub IsIn-every_iff {ℓ} :
    {A : Type ℓ} {P : A → Type 0} (x : A) (xs : List A)
    → (P x × ((y : A) → IsIn y xs → P y)) ↔ ((y : A) → IsIn y (x ∷ xs) → P y)
IsIn-every_iff {P} x xs =
    (λ (p, f) y m. to p f y (IsIn-head m), λ h. (h x here, λ y m. h y (there m)))
  where
    to : P x → ((y : _) → IsIn y xs → P y) → (y : _) → (y ≡ x) ⊎ IsIn y xs → P y
    to p f y (inl e) = subst P (sym e) p
    to p f y (inr m) = f y m

bindings_errors_iff :
    (py : PyText) (index : ℕ) (vs : List Value)
    → (bindings_errors py index vs ≡ []) ↔ ((v : Value) → IsIn v vs → IsBinding py v)
unfolding bindings_errors
bindings_errors_iff py index [] = (λ e v m. elim m [ ], λ h. refl)
bindings_errors_iff py index (v ∷ vs) =
    iff_trans (both_iff _ _ (binding_errors_iff py index v) (bindings_errors_iff py (suc index) vs))
      (IsIn-every_iff v vs)

pub list_errors_iff :
    (py : PyText) (l : Option (List Value))
    → (list_errors py l ≡ [])
      ↔ ((vs : List Value) × (l ≡ some vs) × ((v : Value) → IsIn v vs → IsBinding py v))
list_errors_iff py none = (λ e. absurd (cc), λ (vs, e, h). absurd (cc))
list_errors_iff py (some vs) = iff_trans (bindings_errors_iff py 0 vs) (
  λ h. (vs, refl, h),
  λ (us, e, h). subst (λ ks. (v : Value) → IsIn v ks → IsBinding py v) (cc) h,
)
