-- ===== src/Representation/Merged.antt =====
-- The result of `SemanticIR.merge` (smartbench/ir/schema.py).
use smart_bench.Prelude.{
  String, ◌≡◌, ◌↔◌, refl, Bool, true, some, List, [], ◌∷◌, ◌==◌, string_eq, pair_eq, IsIn, sorted,
  str_leb, ◌++◌, beq_refl, Bool-cases, inl, inr,
}
use smart_bench.Ir.Values.{Value, Fields, PyText, end, field, bool, obj}
use smart_bench.Ir.Operations.{SemanticOperation}
use smart_bench.Debate.Gate.{lookup}
use smart_bench.Icfg.Graph.{distinct}
use smart_bench.Code.Graph
use smart_bench.Code.Graph.{set_field}
use smart_bench.Contracts.Shapes.{HasShape}
use smart_bench.Contracts.Validate.{validate_semantic_ir}
use smart_bench.Contracts.Accepts.{validate_semantic_ir_iff}
use smart_bench.Representation.Union.{IsUnion, union, union-IsUnion}
use smart_bench.Representation.Merge.{
  SemanticIr, Ids, operation_edge_key, merge, annotated, stamped, contract_report, is_none_left,
}

pub record IsMerged {Unit_ Typed : Type 0} (py : PyText) (ids : Ids Typed)
    (own other result : SemanticIr Unit_ Typed) : Type 0 where
  pub facts : IsUnion ids.fact_id own.facts other.facts result.facts
  pub operations :
      IsUnion (λ (o : SemanticOperation). o.id) own.operations other.operations result.operations
  pub operation_edges :
      IsUnion
        (operation_edge_key py)
        own.operation_edges
        other.operation_edges
        result.operation_edges
  pub type_evidence :
      IsUnion ids.evidence_id own.type_evidence other.type_evidence result.type_evidence

-- In the union of two representations the facts, operations, edges and evidence of types are each the
-- first one's, unchanged and in order, followed by members of the second whose identity is new; every
-- identity of either is there, and if the first has none twice, neither has the union.
pub merge-IsMerged :
    {Unit_ Typed : Type 0} (py : PyText) (ids : Ids Typed) (own other : SemanticIr Unit_ Typed)
    → IsMerged py ids own other (merge py ids own other)
unfolding merge
merge-IsMerged py ids own other = record {
  facts = union-IsUnion ids.fact_id own.facts other.facts;
  operations = union-IsUnion (λ o. o.id) own.operations other.operations;
  operation_edges = union-IsUnion (operation_edge_key py) own.operation_edges other.operation_edges;
  type_evidence = union-IsUnion ids.evidence_id own.type_evidence other.type_evidence;
}

lookup-set_field : (fs : Fields) (k : String) (v : Value) → lookup (set_field fs k v) k ≡ some v
unfolding lookup set_field
lookup-set_field end k v = rw (beq_refl k) refl
lookup-set_field (field j w fs) k v = elim (Bool-cases (j == k)) [
  | inl e ↦ rw (e, e) refl
  | inr e ↦ rw (e, e) (lookup-set_field fs k v)
]

none_left_iff : (es : List String) → (is_none_left es ≡ true) ↔ (es ≡ [])
none_left_iff [] = (λ h. refl, λ h. refl)
none_left_iff (e ∷ es) = (λ h. absurd (cc), λ h. absurd (cc))

-- The union's graph carries a report whose `valid` is true exactly if every operation of the union has the
-- shape that the contract of its kind asks for.
pub merge-valid_iff :
    {Unit_ Typed : Type 0} (py : PyText) (ids : Ids Typed) (own other : SemanticIr Unit_ Typed)
    → (report : Fields) × (b : Bool) × (lookup
          (merge py ids own other).graph.meta
          "semantic_contract"
        ≡ some (obj report))
      × (lookup report "valid" ≡ some (bool b))
      × ((b ≡ true) ↔ (
          (o : SemanticOperation)
          → IsIn o (merge py ids own other).operations
          → HasShape py o o.kind))
unfolding merge annotated lookup
merge-valid_iff py ids own other =
    let operations = union (λ (o : SemanticOperation). o.id) own.operations other.operations in
    let errors = validate_semantic_ir py operations in
    let (f, g) = none_left_iff errors in
    let (h, k) = validate_semantic_ir_iff py operations in
    (
      contract_report errors,
      is_none_left errors,
      lookup-set_field
          (stamped (Graph.merge own.graph other.graph) own.schema_version
            (sorted str_leb (distinct (own.languages ++ other.languages))))
          "semantic_contract" (obj (contract_report errors)),
      refl,
      (λ e. h (f e), λ s. g (k s)),
    )
