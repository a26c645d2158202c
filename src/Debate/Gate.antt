-- ===== src/Debate/Gate.antt =====
-- `_grounded_items`: suggestions that do not cite valid facts are rejected.
use smart_bench.Prelude.{
  ℕ, ◌+◌, String, ◌≡◌, ◌↔◌, refl, subst, sym, Bool, true, false, Option, none, some, List, [], ◌∷◌,
  ◌==◌, string_eq, filter, length, all, contains, if◌then◌else◌, IsIn, here, there, IsIn-head,
  IsIn-filter, IsIn-filtered, all_iff, inl, inr, arith,
}
use smart_bench.Ir.Values.{
  Value, Fields, null, bool, int, neg_int, str, arr, obj, other, end, field, as_list,
}

-- `item.get(key)`
unfoldable pub lookup : Fields → String → Option Value
lookup end key = none
lookup (field k v fs) key = if k == key then some v else lookup fs key

-- `[claim for claim in claims if isinstance(claim, str)]`
abbrev pub texts : List Value → List String
texts [] = []
texts (str s ∷ vs) = s ∷ texts vs
texts (null ∷ vs) = texts vs
texts (bool b ∷ vs) = texts vs
texts (int n ∷ vs) = texts vs
texts (neg_int n ∷ vs) = texts vs
texts (arr xs ∷ vs) = texts vs
texts (obj fs ∷ vs) = texts vs
texts (other n ∷ vs) = texts vs

abbrev texts_or_none : Option (List Value) → List String
texts_or_none none = []
texts_or_none (some vs) = texts vs

unfoldable pub claim_ids : Fields → List String
unfolding lookup
claim_ids fs = texts_or_none (as_list (lookup fs "fact_ids"))

abbrev pub cites_only : List String → List String → Bool
cites_only valid_ids [] = false
cites_only valid_ids (c ∷ claims) = all (λ claim. contains claim valid_ids) (c ∷ claims)

-- Whether the item is accepted.
unfoldable pub is_grounded : List String → Value → Bool
unfolding claim_ids
is_grounded valid_ids (obj fs) = cites_only valid_ids (claim_ids fs)
is_grounded valid_ids null = false
is_grounded valid_ids (bool b) = false
is_grounded valid_ids (int n) = false
is_grounded valid_ids (neg_int n) = false
is_grounded valid_ids (str s) = false
is_grounded valid_ids (arr xs) = false
is_grounded valid_ids (other n) = false

-- The accepted items with the numbers of the accepted and the rejected, which the log gets.
pub record Gated : Type 0 where
  pub items : List Value
  pub accepted : ℕ
  pub rejected : ℕ

unfoldable pub grounded_items : List String → List Value → Gated
unfolding is_grounded
grounded_items valid_ids [] = record { items = []; accepted = 0; rejected = 0 }
grounded_items valid_ids (item ∷ candidates) =
    let rest = grounded_items valid_ids candidates in
    if is_grounded valid_ids item
    then record {
      items = item ∷ rest.items;
      accepted = rest.accepted + 1;
      rejected = rest.rejected;
    }
    else record { items = rest.items; accepted = rest.accepted; rejected = rest.rejected + 1 }

grounded_items_lem :
    (valid_ids : List String) (candidates : List Value)
    → (grounded_items valid_ids candidates).items ≡ filter (is_grounded valid_ids) candidates
unfolding grounded_items
grounded_items_lem valid_ids [] = refl
grounded_items_lem valid_ids (item ∷ candidates) =
    ground (arith, grounded_items_lem valid_ids candidates)

accepted_count :
    (valid_ids : List String) (vs : List Value)
    → (grounded_items valid_ids vs).accepted ≡ length (grounded_items valid_ids vs).items
unfolding grounded_items
accepted_count valid_ids [] = refl
accepted_count valid_ids (v ∷ vs) = ground (arith, accepted_count valid_ids vs)

all_count :
    (valid_ids : List String) (vs : List Value)
    → (grounded_items valid_ids vs).accepted + (grounded_items valid_ids vs).rejected ≡ length vs
unfolding grounded_items
all_count valid_ids [] = refl
all_count valid_ids (v ∷ vs) = ground (arith, all_count valid_ids vs)

-- A suggestion that cites facts as it should: an object whose list of fact ids has a text, and whose every text in
-- that list is a valid id.
pub record CitesValid (valid_ids : List String) (item : Value) : Type 0 where
  pub fields : Fields
  pub is_object : item ≡ obj fields
  pub claims : List Value
  pub is_list : as_list (lookup fields "fact_ids") ≡ some claims
  pub cited : String
  pub is_cited : IsIn (str cited) claims
  pub all_valid : (s : String) → IsIn (str s) claims → contains s valid_ids ≡ true

-- The texts of a list of values are its members that are texts.
texts-cons :
    {s : String} (v : Value) (vs : List Value) → IsIn s (texts vs) → IsIn s (texts (v ∷ vs))
texts-cons (str t) vs m = there m
texts-cons null vs m = m
texts-cons (bool b) vs m = m
texts-cons (int n) vs m = m
texts-cons (neg_int n) vs m = m
texts-cons (arr xs) vs m = m
texts-cons (obj fs) vs m = m
texts-cons (other n) vs m = m

IsIn-texts : {s : String} {vs : List Value} → IsIn (str s) vs → IsIn s (texts vs)
IsIn-texts here = here
IsIn-texts (there {x} {xs} m) = texts-cons x xs (IsIn-texts m)

texts-IsIn : (s : String) (vs : List Value) → IsIn s (texts vs) → IsIn (str s) vs
texts-IsIn s [] m = elim m [ ]
texts-IsIn s (str t ∷ vs) m = elim (IsIn-head m) [
  | inl e ↦ subst (λ u. IsIn (str s) (str u ∷ vs)) e here
  | inr k ↦ there (texts-IsIn s vs k)
]
texts-IsIn s (null ∷ vs) m = there (texts-IsIn s vs m)
texts-IsIn s (bool b ∷ vs) m = there (texts-IsIn s vs m)
texts-IsIn s (int n ∷ vs) m = there (texts-IsIn s vs m)
texts-IsIn s (neg_int n ∷ vs) m = there (texts-IsIn s vs m)
texts-IsIn s (arr xs ∷ vs) m = there (texts-IsIn s vs m)
texts-IsIn s (obj fs ∷ vs) m = there (texts-IsIn s vs m)
texts-IsIn s (other n ∷ vs) m = there (texts-IsIn s vs m)

-- A list has a member, and each is a valid id.
abbrev AllIn : List String → List String → Type 0
AllIn valid_ids cs =
    (c : String) × IsIn c cs × ((s : String) → IsIn s cs → contains s valid_ids ≡ true)

module _ (valid_ids : List String) where
  valid_members : (cs : List String) → cites_only valid_ids cs ≡ true → AllIn valid_ids cs
  valid_members [] h = absurd (cc)
  valid_members (c ∷ cs) h = (c, here, (all_iff (λ claim. contains claim valid_ids) (c ∷ cs)).0 h)

  members_valid : (cs : List String) → AllIn valid_ids cs → cites_only valid_ids cs ≡ true
  members_valid [] h = elim h.1 [ ]
  members_valid (c ∷ cs) h = (all_iff (λ claim. contains claim valid_ids) (c ∷ cs)).1 h.2

  fields_cite :
      (fs : Fields) (o : Option (List Value))
      → as_list (lookup fs "fact_ids") ≡ o
      → cites_only valid_ids (texts_or_none o) ≡ true
      → CitesValid valid_ids (obj fs)
  fields_cite fs none e h = absurd (cc)
  fields_cite fs (some vs) e h =
      let (c, m, f) = valid_members (texts vs) h in
      record {
        fields = fs;
        is_object = refl;
        claims = vs;
        is_list = e;
        cited = c;
        is_cited = texts-IsIn c vs m;
        all_valid = λ s k. f s (IsIn-texts k);
      }

  grounded_cites : (item : Value) → is_grounded valid_ids item ≡ true → CitesValid valid_ids item
  unfolding is_grounded claim_ids
  grounded_cites (obj fs) h = fields_cite fs (as_list (lookup fs "fact_ids")) refl h
  grounded_cites null h = absurd (cc)
  grounded_cites (bool b) h = absurd (cc)
  grounded_cites (int n) h = absurd (cc)
  grounded_cites (neg_int n) h = absurd (cc)
  grounded_cites (str s) h = absurd (cc)
  grounded_cites (arr xs) h = absurd (cc)
  grounded_cites (other n) h = absurd (cc)

  cites_grounded : (item : Value) → CitesValid valid_ids item → is_grounded valid_ids item ≡ true
  unfolding is_grounded claim_ids
  cites_grounded item h =
      subst (λ i. is_grounded valid_ids i ≡ true) (sym h.is_object)
        (subst (λ o. cites_only valid_ids (texts_or_none o) ≡ true) (sym h.is_list)
          (members_valid (texts h.claims)
            (h.cited, IsIn-texts h.is_cited, λ s m. h.all_valid s (texts-IsIn s h.claims m))))

-- The gate lets through exactly the candidates that are objects whose `fact_ids` is a list with a text in it and
-- with no text but the valid ids, and its two counts in the log are of what it let through and what it did not.
pub grounded_items_iff :
    (valid_ids : List String) (candidates : List Value)
    → ((item : Value)
        → IsIn item (grounded_items valid_ids candidates).items
          ↔ (IsIn item candidates × CitesValid valid_ids item))
      × ((grounded_items valid_ids candidates).accepted
          ≡ length (grounded_items valid_ids candidates).items)
      × ((grounded_items valid_ids candidates).accepted
            + (grounded_items valid_ids candidates).rejected
          ≡ length candidates)
grounded_items_iff valid_ids candidates = (
  λ item. (
    λ m.
        let (k, g) =
          IsIn-filter (is_grounded valid_ids) candidates
            (subst (IsIn item) (grounded_items_lem valid_ids candidates) m) in
        (k, grounded_cites valid_ids item g),
    λ h.
        subst (IsIn item) (sym (grounded_items_lem valid_ids candidates))
          (IsIn-filtered (is_grounded valid_ids) h.0 (cites_grounded valid_ids item h.1)),
  ),
  accepted_count valid_ids candidates,
  all_count valid_ids candidates,
)
