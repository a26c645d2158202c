-- ===== src/Consent/Staged.antt =====
-- The predicate that a queue of smartbench/consent/queue.py repeats nothing, through one change.
use smart_bench.Prelude.{
  String, ◌≡◌, ◌≢◌, inl, inr, refl, sym, ap, subst, ◌∙◌, Bool, true, false, List, [], ◌∷◌, ◌++◌,
  string_eq, nat_eq, contains, contains-append, unique, unique-snoc, all, map, if◌then◌else◌, arith,
  Bool-cases, IsIn, here, there, IsIn-head, beq→eq,
}
use smart_bench.Ir.Values.{PyText}
use smart_bench.Consent.Queue.{Request, repository_key, is_request_for, add_id, change_or_add}

pub unique-add_id :
    (id : String) (ids : List String) → unique ids ≡ true → unique (add_id id ids) ≡ true
unique-add_id id ids u = ground (arith, unique-snoc id ids)

pub contains-add_id :
    (id : String) (ids : List String) → id ≢ "" → contains id (add_id id ids) ≡ true
contains-add_id id ids n =
    ground
      (arith, contains-append id ids (id ∷ []), string_eq.same_iff id "", string_eq.same_iff id id)

abbrev pub has_distinct_ids : Request → Bool
has_distinct_ids r = unique r.trajectory_ids

-- The repositories' names in lower case are distinct, and so are the ids of each request.
pub record IsQueue (py : PyText) (q : List Request) : Type 0 where
  pub once : unique (map (repository_key py) q) ≡ true
  pub ids : all has_distinct_ids q ≡ true

module _ (py : PyText) (name : String) (change : Request → Request)
    (same_key : (r : Request) → repository_key py (change r) ≡ repository_key py r)
    (kept_ids : (r : Request)
      → has_distinct_ids r ≡ true
      → has_distinct_ids (change r) ≡ true) where
  keys-change_or_add :
      (fresh : Request) (q : List Request)
      → repository_key py fresh ≡ py.lower name
      → map (repository_key py) (change_or_add (is_request_for py name) change fresh q).0 ≡ (
          if contains (py.lower name) (map (repository_key py) q)
          then map (repository_key py) q
          else map (repository_key py) q ++ py.lower name ∷ [])
  unfolding change_or_add
  keys-change_or_add fresh [] e = ap (λ k. k ∷ []) (same_key fresh ∙ e)
  keys-change_or_add fresh (r ∷ q) e = ground (
    arith,
    keys-change_or_add fresh q e,
    same_key r,
    string_eq.same_iff (py.lower name) (repository_key py r),
    string_eq.same_iff (repository_key py r) (py.lower name),
  )

  ids-change_or_add :
      (fresh : Request) (q : List Request)
      → has_distinct_ids fresh ≡ true
      → all has_distinct_ids q ≡ true
      → all has_distinct_ids (change_or_add (is_request_for py name) change fresh q).0 ≡ true
  unfolding change_or_add
  ids-change_or_add fresh [] f h = ground (arith, kept_ids fresh f)
  ids-change_or_add fresh (r ∷ q) f h = ground (arith, kept_ids r, ids-change_or_add fresh q f)

  pub IsQueue-change_or_add :
      (fresh : Request) (q : List Request)
      → repository_key py fresh ≡ py.lower name
      → has_distinct_ids fresh ≡ true
      → IsQueue py q
      → IsQueue py (change_or_add (is_request_for py name) change fresh q).0
  IsQueue-change_or_add fresh q e f h = record {
    once =
        ap unique (keys-change_or_add fresh q e)
        ∙ by_old (contains (py.lower name) (map (repository_key py) q)) refl;
    ids = ids-change_or_add fresh q f h.ids;
  }
    where
      by_old :
          (b : Bool)
          → contains (py.lower name) (map (repository_key py) q) ≡ b
          → unique (
              if b
              then map (repository_key py) q
              else map (repository_key py) q ++ py.lower name ∷ [])
            ≡ true
      by_old true c = h.once
      by_old false c =
          ground (arith, unique-snoc (py.lower name) (map (repository_key py) q), h.once)

  -- The changed entry is in the list; every other request is kept.
  pub IsIn-change_or_add :
      (fresh : Request) (q : List Request)
      → IsIn
          (change_or_add (is_request_for py name) change fresh q).1
          (change_or_add (is_request_for py name) change fresh q).0
  unfolding change_or_add
  IsIn-change_or_add fresh [] = here
  IsIn-change_or_add fresh (r ∷ q) = elim (Bool-cases (is_request_for py name r)) [
    | inl e ↦ rw (e) here
    | inr e ↦ rw (e) (there (IsIn-change_or_add fresh q))
  ]

  pub others-change_or_add :
      (fresh : Request) (q : List Request) (x : Request)
      → IsIn x q
      → is_request_for py name x ≡ false
      → IsIn x (change_or_add (is_request_for py name) change fresh q).0
  unfolding change_or_add
  others-change_or_add fresh (r ∷ q) x m n = elim (Bool-cases (is_request_for py name r)) [
    | inl e ↦ rw (e) (elim (IsIn-head m) [
      | inl same ↦ absurd (cc (ap (is_request_for py name) same))
      | inr k ↦ there k
    ])
    | inr e ↦ rw (e) (elim (IsIn-head m) [
      | inl same ↦
          subst (λ y. IsIn y (r ∷ (change_or_add (is_request_for py name) change fresh q).0))
            (sym same) here
      | inr k ↦ there (others-change_or_add fresh q x k n)
    ])
  ]
  others-change_or_add fresh [] x m n = elim m [ ]

  -- The changed entry comes from a request for the repository, or is the new one.
  pub from-change_or_add :
      (fresh : Request) (q : List Request)
      → repository_key py fresh ≡ py.lower name
      → (r : Request) × ((change_or_add (is_request_for py name) change fresh q).1 ≡ change r)
        × (repository_key py r ≡ py.lower name)
  unfolding change_or_add
  from-change_or_add fresh [] e = (fresh, refl, e)
  from-change_or_add fresh (r ∷ q) e = elim (Bool-cases (is_request_for py name r)) [
    | inl hit ↦ rw (hit) (r, refl, beq→eq (repository_key py r) (py.lower name) hit)
    | inr miss ↦ rw (miss) (from-change_or_add fresh q e)
  ]
