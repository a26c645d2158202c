-- ===== src/Examples/Codes.antt =====
-- Witnesses for the theorems on the code graph: a function that calls another.
use smart_bench.Prelude.{
  String, ◌≡◌, ◌↔◌, refl, true, none, some, [], ◌∷◌, ◌++◌, string_eq, unique, any, IsIn,
}
use smart_bench.Prelude.Dict
use smart_bench.Ir.Values.{bool, end, field}
use smart_bench.Code.Schema.{CodeNode, CodeEdge, function, calls}
use smart_bench.Code.Graph
use smart_bench.Code.Graph.{CodeGraph, empty_graph, add_node, add_edge, get_callers, get_callees}
use smart_bench.Code.Expand.{expand}
use smart_bench.Code.Loading.{ok, graph_to_dict, graph_from_dict}
use smart_bench.Code.Indexed.{
  IsIndexed, empty_graph-IsIndexed, add_node-IsIndexed, add_edge-IsIndexed,
}
use smart_bench.Code.Subgraph.{IsKeyed, empty-IsKeyed, add_node-IsKeyed, add_edge-IsKeyed}
use smart_bench.Code.Expanded.{IsSubgraph, expand-IsSubgraph}
use smart_bench.Code.Queries.{is_call_between, calls_iff}
use smart_bench.Code.Merge.{IsTable, or_else, merge_lem}
use smart_bench.Code.RoundTrip.{IsSame, graph_from_dict-graph_to_dict}

abbrev node : String → CodeNode
node id = record {
  id = id;
  node_type = function;
  name = id;
  file_path = "a.py";
  line_start = 1;
  line_end = 2;
  language = "python";
  properties = field "is_async" (bool true) end;
}

abbrev call : CodeEdge
call = record { source_id = "f"; target_id = "g"; edge_type = calls; properties = end }

abbrev graph : CodeGraph
graph = add_edge (add_node (add_node (empty_graph end) (node "f")) (node "g")) call

graph-IsIndexed : IsIndexed graph
graph-IsIndexed =
    add_edge-IsIndexed call
      (add_node-IsIndexed (node "g") (add_node-IsIndexed (node "f") (empty_graph-IsIndexed end)))

graph-IsKeyed : IsKeyed graph
graph-IsKeyed =
    let one = add_node-IsKeyed (empty_graph end) (node "f") (empty-IsKeyed end) in
    let two = add_node-IsKeyed (add_node (empty_graph end) (node "f")) (node "g") one in
    add_edge-IsKeyed (add_node (add_node (empty_graph end) (node "f")) (node "g")) call two

graph_unique : unique (Dict.keys graph.nodes) ≡ true
unfolding add_edge add_node Dict.insert
graph_unique = refl

graph-IsTable : IsTable graph.nodes
unfolding add_edge add_node Dict.insert Dict.has_key
graph-IsTable = (refl, refl, (refl, refl, tt))

graph_from_dict-graph_to_dict_example :
    (h : CodeGraph) × (graph_from_dict (graph_to_dict graph) ≡ ok h) × IsSame graph h
graph_from_dict-graph_to_dict_example =
    graph_from_dict-graph_to_dict graph graph_unique graph-IsIndexed

expand-IsSubgraph_example : IsSubgraph graph none (expand graph ("f" ∷ []) 2 none "out")
expand-IsSubgraph_example =
    expand-IsSubgraph graph ("f" ∷ []) 2 none "out" graph-IsKeyed graph-IsIndexed

calls_iff_example :
    (IsIn (node "g") (get_callees graph "f") ↔ (
      (j : String) × (any (is_call_between (λ e. e.source_id) (λ e. e.target_id) "f" j) graph.edges
        ≡ true)
      × (Dict.get graph.nodes j ≡ some (node "g"))))
    × (IsIn (node "g") (get_callers graph "f") ↔ (
        (j : String) × (any
            (is_call_between (λ e. e.target_id) (λ e. e.source_id) "f" j)
            graph.edges
          ≡ true)
        × (Dict.get graph.nodes j ≡ some (node "g"))))
calls_iff_example = calls_iff graph "f" (node "g") graph-IsIndexed

merge_lem_example :
    ((k : String)
      → Dict.get (Graph.merge graph graph).nodes k
        ≡ or_else (Dict.get graph.nodes k) (Dict.get graph.nodes k))
    × ((Graph.merge graph graph).edges ≡ graph.edges ++ graph.edges)
    × IsIndexed (Graph.merge graph graph)
merge_lem_example = merge_lem graph graph graph-IsTable graph-IsTable
