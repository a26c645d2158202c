-- ===== src/ControlFlow/Graph.antt =====
-- The graph's state and construction: `ControlFlowArc`, `ControlFlowGraph.__init__`, `from_ir`,
-- `successors` and `predecessors` of smartbench/analysis/control_flow.py.
use smart_bench.Prelude.{
  String, Bool, true, false, ◌&&◌, not, Option, none, some, List, [], ◌∷◌, ◌++◌, map, ◌==◌,
  contains, filter, if◌then◌else◌, string_eq, then_compare, is_le, str_compare, sorted,
}
use smart_bench.Prelude.Dict.{Dict}
use smart_bench.Prelude.Dict
use smart_bench.Ir.Operations.{
  SemanticOperation, OperationEdge, OperationEdgeKind, next, true_branch, false_branch, body,
  loop_back, loop_exit, edge_kind_value, edge_kind_eq,
}

pub record ControlFlowArc : Type 0 where
  pub source_id : String
  pub target_id : String
  pub kind : OperationEdgeKind

-- The attributes `operations`, `_successors` and `_predecessors`.
pub record ControlFlowGraph : Type 0 where
  pub operations : Dict String SemanticOperation
  pub succs : Dict String (List ControlFlowArc)
  pub preds : Dict String (List ControlFlowArc)

abbrev pub control_flow_edge_kinds : List OperationEdgeKind
control_flow_edge_kinds = next ∷ true_branch ∷ false_branch ∷ body ∷ loop_back ∷ loop_exit ∷ []

-- `{operation.id: operation for operation in operations}`
unfoldable pub index_operations :
    Dict String SemanticOperation → List SemanticOperation → Dict String SemanticOperation
index_operations d [] = d
index_operations d (o ∷ os) = index_operations (Dict.insert d o.id o) os

-- `not (source is None or target is None or source.scope_id != target.scope_id)`
abbrev pub same_scope : Option SemanticOperation → Option SemanticOperation → Bool
same_scope none b = false
same_scope (some a) none = false
same_scope (some a) (some b) = a.scope_id == b.scope_id

abbrev pub arc_of : OperationEdge → ControlFlowArc
arc_of e = record { source_id = e.source_id; target_id = e.target_id; kind = e.kind }

abbrev append_at :
    Dict String (List ControlFlowArc) → String → ControlFlowArc → Dict String (List ControlFlowArc)
append_at d k a = Dict.insert d k (Dict.get_or d k [] ++ a ∷ [])

-- One round of the loop over the edges, its two `continue`s first.
unfoldable pub add_edge : ControlFlowGraph → OperationEdge → ControlFlowGraph
add_edge g e =
    if not (contains e.kind control_flow_edge_kinds)
    then g
    else if not (same_scope (Dict.get g.operations e.source_id) (Dict.get g.operations e.target_id))
    then g
    else record g {
      succs = append_at g.succs e.source_id (arc_of e);
      preds = append_at g.preds e.target_id (arc_of e);
    }

unfoldable pub add_edges : ControlFlowGraph → List OperationEdge → ControlFlowGraph
unfolding add_edge
add_edges g [] = g
add_edges g (e ∷ es) = add_edges (add_edge g e) es

-- By kind, target and source.
abbrev pub arc_order : ControlFlowArc → ControlFlowArc → Bool
arc_order a b = is_le (
    then_compare (str_compare (edge_kind_value a.kind) (edge_kind_value b.kind))
      (then_compare (str_compare a.target_id b.target_id) (str_compare a.source_id b.source_id)))

unfoldable pub sort_arcs : ControlFlowGraph → ControlFlowGraph
sort_arcs g = record g {
  succs = Dict.map_values (sorted arc_order) g.succs;
  preds = Dict.map_values (sorted arc_order) g.preds;
}

-- `ControlFlowGraph(operations, edges)`
unfoldable pub control_flow_graph : List SemanticOperation → List OperationEdge → ControlFlowGraph
unfolding add_edges sort_arcs index_operations
control_flow_graph ops es =
    sort_arcs
      (add_edges (record { operations = index_operations [] ops; succs = []; preds = [] }) es)

-- `not language_filter or language in language_filter`
abbrev pub is_wanted : String → List String → Bool
is_wanted language [] = true
is_wanted language (l ∷ ls) = contains language (l ∷ ls)

-- `ControlFlowGraph.from_ir`; `lower` is Python's `str.lower`.
unfoldable pub from_ir :
    (String → String) → List SemanticOperation → List OperationEdge → List String → ControlFlowGraph
unfolding control_flow_graph
from_ir lower ir_operations ir_edges languages = control_flow_graph kept (filter inside ir_edges)
  where
    wanted : SemanticOperation → Bool
    wanted o = is_wanted (lower o.language) (map lower languages)

    kept : List SemanticOperation
    kept = filter wanted ir_operations

    inside : OperationEdge → Bool
    inside e =
        contains e.source_id (map (λ o. o.id) kept) && contains e.target_id (map (λ o. o.id) kept)

-- `successors(operation_id, kinds)`; no kinds means every kind.
unfoldable pub successors_of :
    ControlFlowGraph → String → List OperationEdgeKind → List ControlFlowArc
successors_of g id [] = Dict.get_or g.succs id []
successors_of g id (k ∷ ks) = filter (λ arc. contains arc.kind (k ∷ ks)) (Dict.get_or g.succs id [])

unfoldable pub successors : ControlFlowGraph → String → List ControlFlowArc
successors g id = Dict.get_or g.succs id []

unfoldable pub predecessors : ControlFlowGraph → String → List ControlFlowArc
predecessors g id = Dict.get_or g.preds id []

-- The operations one arc after, and one arc before, an operation.
unfoldable pub targets : ControlFlowGraph → String → List String
unfolding successors
targets g id = map (λ arc. arc.target_id) (successors g id)

unfoldable pub sources : ControlFlowGraph → String → List String
unfolding predecessors
sources g id = map (λ arc. arc.source_id) (predecessors g id)
