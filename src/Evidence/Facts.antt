-- ===== src/Evidence/Facts.antt =====
-- `StateInvariantViolation.to_fact` and `InterproceduralStatePath.to_fact`.
use smart_bench.Prelude.{
  ℕ, ◌≤◌, ◌<◌, String, ◌≡◌, inl, inr, refl, true, false, Option, none, some, List, [], ◌∷◌, ◌++◌,
  nat_eq, string_eq, pair_eq, option_eq, contains, map, length, length-append, leb, if◌then◌else◌,
  arith, Bool-cases, ◌⊎◌, sym, ap, ◌∙◌, append_assoc, append-nil,
}
use smart_bench.Prelude.Dict.{Dict}
use smart_bench.Ir.Values.{Value, Items, nil, cons, int, str, arr}
use smart_bench.Ir.Operations.{EvidenceRef, SemanticOperation}
use smart_bench.Icfg.Graph.{IcfgPath, arc_kind_value}
use smart_bench.StateMachine.Selector.{StateInvariantViolation}
use smart_bench.Evidence.Pack.{SemanticFact}

abbrev pub PlaceKey : Type 0
PlaceKey = String × (ℕ × Option ℕ)

abbrev place_key : EvidenceRef → PlaceKey
place_key r = (r.file_path, (r.line_start, r.line_end))

-- The loop over the path's operations: it stops once there are eight references.
unfoldable pub add_places :
    List EvidenceRef → List PlaceKey → List SemanticOperation → List EvidenceRef
add_places evidence seen [] = evidence
add_places evidence seen (o ∷ os) =
    let known = contains (place_key o.location) seen in
    let grown = if known then evidence else evidence ++ o.location ∷ [] in
    let seen_after = if known then seen else place_key o.location ∷ seen in
    let rest = add_places grown seen_after os in if leb 8 (length grown) then grown else rest

abbrev texts_of : List String → Items
texts_of [] = nil
texts_of (s ∷ ss) = cons (str s) (texts_of ss)

abbrev path_attributes : Option IcfgPath → Dict String Value
path_attributes none = []
path_attributes (some p) =
    ("proof_scope", str "interprocedural")
    ∷ ("path_operations", arr (texts_of p.operation_ids))
    ∷ ("path_arcs", arr (texts_of (map arc_kind_value p.arc_kinds)))
    ∷ ("call_depth", int p.call_depth)
    ∷ []

unfoldable pub violation_to_fact : StateInvariantViolation → SemanticFact
unfolding add_places
violation_to_fact v = record {
  subject = v.scope_id;
  predicate = "state_transition";
  object = v.message;
  evidence =
      add_places (v.event.location ∷ v.action.location ∷ [])
        (place_key v.event.location ∷ place_key v.action.location ∷ []) v.path_operations;
  attributes =
      (("invariant_id", str v.invariant_id)
        ∷ ("event_operation", str v.event.id)
        ∷ ("action_operation", str v.action.id)
        ∷ ("missing", str v.missing)
        ∷ [])
      ++ path_attributes v.path;
}

-- The references are kept at the front, and the bound is not passed.
abbrev IsGrown : List EvidenceRef → List EvidenceRef → Type 0
IsGrown evidence result =
    (more : List EvidenceRef) × (result ≡ evidence ++ more) × (length result ≤ 8)

IsGrown-trans :
    (xs : List EvidenceRef) (r : EvidenceRef) (result : List EvidenceRef)
    → IsGrown (xs ++ r ∷ []) result
    → IsGrown xs result
IsGrown-trans xs r result (more, e, l) = (r ∷ more, e ∙ append_assoc xs (r ∷ []) more, l)

add_places-IsGrown :
    (evidence : List EvidenceRef) (seen : List PlaceKey) (os : List SemanticOperation)
    → length evidence < 8
    → IsGrown evidence (add_places evidence seen os)
unfolding add_places
add_places-IsGrown evidence seen [] h = ([], sym (append-nil evidence), omega arith)
add_places-IsGrown evidence seen (o ∷ os) h =
    elim (Bool-cases (contains (place_key o.location) seen)) [
      | inl p ↦ rw (add_places, p, full_test evidence h) (add_places-IsGrown evidence seen os h)
      | inr p ↦
          by_length p (Bool-cases (leb 8 (length (evidence ++ o.location ∷ [])))) (λ l.
            add_places-IsGrown (evidence ++ o.location ∷ []) (place_key o.location ∷ seen) os l)
    ]
  where
    full_test : (xs : List EvidenceRef) → length xs < 8 → leb 8 (length xs) ≡ false
    full_test xs l = ground arith

    by_length :
        contains (place_key o.location) seen ≡ false
        → (leb 8 (length (evidence ++ o.location ∷ [])) ≡ true)
          ⊎ (leb 8 (length (evidence ++ o.location ∷ [])) ≡ false)
        → (length (evidence ++ o.location ∷ []) < 8
            → IsGrown
                (evidence ++ o.location ∷ [])
                (add_places (evidence ++ o.location ∷ []) (place_key o.location ∷ seen) os))
        → IsGrown evidence (add_places evidence seen (o ∷ os))
    by_length p (inl q) next =
        rw (add_places, p, q)
          (o.location ∷ [], refl, omega (arith, length-append evidence (o.location ∷ []), h))
    by_length p (inr q) next =
        rw (add_places, p, q) (IsGrown-trans evidence o.location _ (next (ground arith)))

-- The fact of a violation refers to the event's and the action's places first, and to eight places at most.
pub violation_to_fact_evidence :
    (v : StateInvariantViolation)
    → (more : List EvidenceRef) × ((violation_to_fact v).evidence
        ≡ v.event.location ∷ v.action.location ∷ more)
      × (length more ≤ 6)
unfolding violation_to_fact
violation_to_fact_evidence v =
    let (more, e, l) =
      add_places-IsGrown (v.event.location ∷ v.action.location ∷ [])
        (place_key v.event.location ∷ place_key v.action.location ∷ []) v.path_operations
        (ground arith) in
    (more, e, ground (arith, ap length e))
