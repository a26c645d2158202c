-- ===== src/Representation/Merge.antt =====
-- `SemanticIR.merge`. Source units and the evidence of types are kept as they are; of the latter only the id is read.
use smart_bench.Prelude.{
  String, Bool, true, false, List, [], ◌∷◌, ◌++◌, ◌==◌, string_eq, pair_eq, sorted, str_leb,
  if◌then◌else◌,
}
use smart_bench.Prelude.Dict.{Dict}
use smart_bench.Prelude.Dict
use smart_bench.Ir.Values.{Items, Fields, PyText, nil, cons, end, field, str, arr, obj, bool}
use smart_bench.Ir.Operations.{SemanticOperation, OperationEdge, edge_kind_value}
use smart_bench.Evidence.Pack.{SemanticFact}
use smart_bench.Capabilities.Set.{CapabilitySet}
use smart_bench.Icfg.Graph.{distinct}
use smart_bench.Code.Graph.{CodeGraph, set_field}
use smart_bench.Code.Graph
use smart_bench.Contracts.Validate.{validate_semantic_ir}
use smart_bench.Representation.Union.{union}

pub record SemanticIr (Unit_ Typed : Type 0) : Type 0 where
  pub graph : CodeGraph
  pub project_path : String
  pub languages : List String
  pub capabilities : Dict String CapabilitySet
  pub source_units : Dict String Unit_
  pub facts : List SemanticFact
  pub operations : List SemanticOperation
  pub operation_edges : List OperationEdge
  pub type_evidence : List Typed
  pub schema_version : String

-- The ids of facts and of evidence of types: hashes of their contents.
pub record Ids (Typed : Type 0) : Type 0 where
  pub fact_id : SemanticFact → String
  pub evidence_id : Typed → String

-- `_operation_edge_key`
abbrev pub operation_edge_key : PyText → OperationEdge → String × (String × (String × String))
operation_edge_key py e =
    (e.source_id, (e.target_id, (edge_kind_value e.kind, py.dumps e.attributes)))

-- `dict.update`
unfoldable pub updated {ℓ} : {V : Type ℓ} → Dict String V → Dict String V → Dict String V
updated d [] = d
updated d ((k, v) ∷ more) = updated (Dict.insert d k v) more

-- `a or b` on texts
abbrev pub first_text : String → String → String
first_text a b = if a == "" then b else a

abbrev pub text_items : List String → Items
text_items [] = nil
text_items (s ∷ ss) = cons (str s) (text_items ss)

abbrev pub is_none_left : List String → Bool
is_none_left [] = true
is_none_left (e ∷ es) = false

abbrev pub contract_report : List String → Fields
contract_report errors =
    field "version" (str "semantic-ir/contracts/v1")
      (field "valid" (bool (is_none_left errors)) (field "errors" (arr (text_items errors)) end))

-- The first two entries of `meta` that are set.
abbrev pub stamped : CodeGraph → String → List String → Fields
stamped g version languages =
    set_field (set_field g.meta "semantic_ir_version" (str version)) "languages"
      (arr (text_items languages))

-- The graph with the three entries of `meta` that are set.
unfoldable pub annotated : CodeGraph → String → List String → List String → CodeGraph
unfolding set_field
annotated g version languages errors = record {
  nodes = g.nodes;
  edges = g.edges;
  adj_out = g.adj_out;
  adj_in = g.adj_in;
  meta = set_field (stamped g version languages) "semantic_contract" (obj (contract_report errors));
}

unfoldable pub merge :
    {Unit_ Typed : Type 0}
    → PyText
    → Ids Typed
    → SemanticIr Unit_ Typed
    → SemanticIr Unit_ Typed
    → SemanticIr Unit_ Typed
unfolding union updated annotated validate_semantic_ir sorted distinct
merge py ids own other =
    let languages = sorted str_leb (distinct (own.languages ++ other.languages)) in
    let operations = union (λ (o : SemanticOperation). o.id) own.operations other.operations in
    record {
      graph =
          annotated (Graph.merge own.graph other.graph) own.schema_version languages
            (validate_semantic_ir py operations);
      project_path = first_text own.project_path other.project_path;
      languages = languages;
      capabilities = updated own.capabilities other.capabilities;
      source_units = updated own.source_units other.source_units;
      facts = union ids.fact_id own.facts other.facts;
      operations = operations;
      operation_edges = union (operation_edge_key py) own.operation_edges other.operation_edges;
      type_evidence = union ids.evidence_id own.type_evidence other.type_evidence;
      schema_version = own.schema_version;
    }
