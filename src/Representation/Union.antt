-- ===== src/Representation/Union.antt =====
-- The loops of `SemanticIR.merge` that append what is not known yet, over any key.
use smart_bench.Prelude.{
  ◌≡◌, inl, inr, refl, sym, ap, subst, ◌∙◌, Bool, true, false, ◌||◌, List, [], ◌∷◌, ◌++◌, Eq, ◌==◌,
  contains, contains-append, unique, unique-snoc, map, map-append, if◌then◌else◌, arith, Bool-cases,
  append_assoc, append-nil, IsIn, here, there,
}

module _ {ℓ κ} {A : Type ℓ} {K : Type κ} ⦃e : Eq K⦄ (key : A → K) where
  unfoldable pub append_unknown : List A → List K → List A → List A
  append_unknown kept known [] = kept
  append_unknown kept known (x ∷ xs) =
      if contains (key x) known
      then append_unknown kept known xs
      else append_unknown (kept ++ x ∷ []) (key x ∷ known) xs

  -- `known = {key(x) for x in own}` and the loop.
  unfoldable pub union : List A → List A → List A
  unfolding append_unknown
  union own other = append_unknown own (map key own) other

  -- The own list first, unchanged; then members of the other whose keys are new. No key is lost, and
  -- none is doubled.
  pub record IsUnion (own other result : List A) : Type (ℓ ⊔ κ) where
    pub added : List A
    pub own_first : result ≡ own ++ added
    pub from_other :
        (x : A) → IsIn x added → IsIn x other × (contains (key x) (map key own) ≡ false)
    pub keys :
        (k : K)
        → contains k (map key result) ≡ (contains k (map key own) || contains k (map key other))
    pub once : unique (map key own) ≡ true → unique (map key result) ≡ true

  abbrev Knows : List A → List K → Type κ
  Knows kept known = (k : K) → contains k known ≡ contains k (map key kept)

  Knows-snoc :
      (kept : List A) (known : List K) (x : A)
      → Knows kept known
      → Knows (kept ++ x ∷ []) (key x ∷ known)
  Knows-snoc kept known x h k =
      rw (map-append key kept (x ∷ []), contains-append k (map key kept) (key x ∷ []), h k)
        (ground arith)

  IsUnion-skip :
      {kept result : List A} (x : A) (xs : List A)
      → contains (key x) (map key kept) ≡ true
      → IsUnion kept xs result
      → IsUnion kept (x ∷ xs) result
  IsUnion-skip {kept} {result} x xs old u = record {
    added = u.added;
    own_first = u.own_first;
    from_other = λ y m. let (i, n) = u.from_other y m in (there i, n);
    keys = λ k. u.keys k ∙ same k (k == key x) refl;
    once = u.once;
  }
    where
      same :
          (k : K) (b : Bool)
          → (k == key x) ≡ b
          → (contains k (map key kept) || contains k (map key xs))
            ≡ (contains k (map key kept) || (b || contains k (map key xs)))
      same k true hit =
          rw
            (subst (λ j. contains j (map key kept) ≡ true) (sym ((e.same_iff k (key x)).0 hit)) old)
            refl
      same k false miss = refl

  IsUnion-take :
      {kept result : List A} (x : A) (xs : List A)
      → contains (key x) (map key kept) ≡ false
      → IsUnion (kept ++ x ∷ []) xs result
      → IsUnion kept (x ∷ xs) result
  IsUnion-take {kept} {result} x xs new u = record {
    added = x ∷ u.added;
    own_first = u.own_first ∙ append_assoc kept (x ∷ []) u.added;
    from_other = from;
    keys = λ k. u.keys k ∙ rw (extended k) (ground arith);
    once = λ h. u.once (
        ap unique (map-append key kept (x ∷ []))
        ∙ unique-snoc (key x) (map key kept)
        ∙ rw (h, new) refl);
  }
    where
      extended :
          (k : K)
          → contains k (map key (kept ++ x ∷ []))
            ≡ (contains k (map key kept) || (k == key x || false))
      extended k =
          ap (contains k) (map-append key kept (x ∷ []))
          ∙ contains-append k (map key kept) (key x ∷ [])

      from :
          (y : A)
          → IsIn y (x ∷ u.added)
          → IsIn y (x ∷ xs) × (contains (key y) (map key kept) ≡ false)
      from y here = (here, new)
      from y (there m) =
          let (i, n) = u.from_other y m in (there i, ground (arith, sym (extended (key y)) ∙ n))

  append_unknown-IsUnion :
      (kept : List A) (known : List K) (xs : List A)
      → Knows kept known
      → IsUnion kept xs (append_unknown kept known xs)
  unfolding append_unknown
  append_unknown-IsUnion kept known [] h = record {
    added = [];
    own_first = sym (append-nil kept);
    from_other = λ x m. elim m [ ];
    keys = λ k. ground arith;
    once = λ u. u;
  }
  append_unknown-IsUnion kept known (x ∷ xs) h = elim (Bool-cases (contains (key x) known)) [
    | inl old ↦
        rw (old)
          (IsUnion-skip x xs (sym (h (key x)) ∙ old) (append_unknown-IsUnion kept known xs h))
    | inr new ↦ rw (new) (
        IsUnion-take x xs (sym (h (key x)) ∙ new)
          (append_unknown-IsUnion (kept ++ x ∷ []) (key x ∷ known) xs (Knows-snoc kept known x h)))
  ]

  pub union-IsUnion : (own other : List A) → IsUnion own other (union own other)
  unfolding union
  union-IsUnion own other = append_unknown-IsUnion own (map key own) other (λ k. refl)
