-- ===== src/Code/Expand.antt =====
-- `CodeGraph.expand`: the subgraph around seed nodes, by rounds over a frontier. Python's sets are
-- iterated in the order of insertion here.
use smart_bench.Prelude.{
  ℕ, zero, suc, String, Bool, true, false, not, ◌||◌, Option, none, some, List, [], ◌∷◌, ◌==◌,
  string_eq, pair_eq, filter, contains, if◌then◌else◌,
}
use smart_bench.Prelude.Dict
use smart_bench.Ir.Values.{end}
use smart_bench.Code.Schema.{CodeNode, CodeEdge, EdgeType, edge_type_eq}
use smart_bench.Code.Graph.{
  CodeGraph, empty_graph, add_node, add_edge, out_edges, in_edges, set_add,
}

-- The sets and the subgraph that the function's loops change.
pub record Expansion : Type 0 where
  pub visited : List String
  pub next_frontier : List String
  pub added_edges : List (String × (String × EdgeType))
  pub subgraph : CodeGraph

abbrev pub edge_key : CodeEdge → String × (String × EdgeType)
edge_key e = (e.source_id, (e.target_id, e.edge_type))

-- Both an absent and an empty set of types follow every edge.
abbrev pub is_followed : Option (List EdgeType) → CodeEdge → Bool
is_followed none e = true
is_followed (some []) e = true
is_followed (some (t ∷ ts)) e = contains e.edge_type (t ∷ ts)

unfoldable pub add_edge_once : Expansion → CodeEdge → Expansion
unfolding add_edge
add_edge_once x e = if contains (edge_key e) x.added_edges then x else record {
  visited = x.visited;
  next_frontier = x.next_frontier;
  added_edges = edge_key e ∷ x.added_edges;
  subgraph = add_edge x.subgraph e;
}

abbrev pub to_frontier : Expansion → String → Expansion
to_frontier x k = record {
  visited = x.visited;
  next_frontier = set_add x.next_frontier k;
  added_edges = x.added_edges;
  subgraph = x.subgraph;
}

-- One of the loops over adjacent edges; `far` is the end that joins the frontier.
unfoldable pub follow :
    Option (List EdgeType) → (CodeEdge → String) → List CodeEdge → Expansion → Expansion
unfolding add_edge_once
follow types far [] x = x
follow types far (e ∷ es) x =
    follow types far es (if is_followed types e then to_frontier (add_edge_once x e) (far e) else x)

abbrev pub add_found : CodeGraph → Option CodeNode → CodeGraph
add_found sub none = sub
add_found sub (some n) = add_node sub n

abbrev pub copy_node : CodeGraph → CodeGraph → String → CodeGraph
copy_node g sub k = add_found sub (Dict.get g.nodes k)

abbrev pub visit_node : CodeGraph → String → Expansion → Expansion
visit_node g k x = record {
  visited = k ∷ x.visited;
  next_frontier = x.next_frontier;
  added_edges = x.added_edges;
  subgraph = copy_node g x.subgraph k;
}

abbrev pub follow_if :
    Bool → Option (List EdgeType) → (CodeEdge → String) → List CodeEdge → Expansion → Expansion
follow_if true types far es x = follow types far es x
follow_if false types far es x = x

abbrev pub goes_out : String → Bool
goes_out direction = direction == "out" || direction == "both"

abbrev pub goes_in : String → Bool
goes_in direction = direction == "in" || direction == "both"

-- The body of the loop over the frontier.
unfoldable pub expand_node :
    CodeGraph → Option (List EdgeType) → String → String → Expansion → Expansion
expand_node g types direction k x =
    if contains k x.visited
    then x
    else follow_if (goes_in direction) types (λ e. e.source_id) (in_edges g k)
        (follow_if (goes_out direction) types (λ e. e.target_id) (out_edges g k) (visit_node g k x))

unfoldable pub expand_frontier :
    CodeGraph → Option (List EdgeType) → String → List String → Expansion → Expansion
unfolding expand_node
expand_frontier g types direction [] x = x
expand_frontier g types direction (k ∷ ks) x =
    expand_frontier g types direction ks (expand_node g types direction k x)

abbrev pub with_empty_frontier : Expansion → Expansion
with_empty_frontier x = record {
  visited = x.visited;
  next_frontier = [];
  added_edges = x.added_edges;
  subgraph = x.subgraph;
}

-- `frontier = next_frontier - visited`
abbrev pub frontier_of : Expansion → List String
frontier_of x = filter (λ k. not (contains k x.visited)) x.next_frontier

unfoldable pub rounds :
    CodeGraph → Option (List EdgeType) → String → ℕ → List String → Expansion → Expansion
unfolding expand_frontier
rounds g types direction zero frontier x = x
rounds g types direction (suc hops) frontier x =
    let after = expand_frontier g types direction frontier (with_empty_frontier x) in
    rounds g types direction hops (frontier_of after) after

-- An end of an edge that was not expanded is added as a node.
unfoldable pub add_end : CodeGraph → CodeGraph → String → CodeGraph
add_end g sub k = if Dict.has_key sub.nodes k then sub else copy_node g sub k

unfoldable pub add_ends : CodeGraph → List CodeEdge → CodeGraph → CodeGraph
unfolding add_end
add_ends g [] sub = sub
add_ends g (e ∷ es) sub = add_ends g es (add_end g (add_end g sub e.source_id) e.target_id)

abbrev pub start : Expansion
start = record { visited = []; next_frontier = []; added_edges = []; subgraph = empty_graph end }

unfoldable pub expand : CodeGraph → List String → ℕ → Option (List EdgeType) → String → CodeGraph
unfolding rounds add_ends
expand g seeds hops types direction =
    let sub = (rounds g types direction hops seeds start).subgraph in add_ends g sub.edges sub
