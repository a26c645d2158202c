-- ===== src/Code/RoundTrip.antt =====
-- `to_dict` followed by `from_dict`, of smartbench/graph/schema.py.
use smart_bench.Prelude.{
  String, ◌≡◌, refl, sym, ap, ◌∙◌, true, false, List, [], ◌∷◌, ◌++◌, string_eq, append_assoc,
  append-nil, unique, unique-middle, filter, ◌==◌,
}
use smart_bench.Prelude.Dict
use smart_bench.Prelude.Dict.{Dict, insert-new, keys-append, has_key-keys}
use smart_bench.Ir.Values.{items_to_list}
use smart_bench.Debate.Gate.{lookup}
use smart_bench.Code.Schema.{
  CodeNode, CodeEdge, node_type_of-node_type_value, edge_type_of-edge_type_value,
}
use smart_bench.Code.Graph.{CodeGraph, empty_graph, add_edge, add_edges, out_edges, in_edges}
use smart_bench.Code.Merge.{nodes-add_edges, edges-add_edges}
use smart_bench.Code.Indexed.{
  IsIndexed, empty_graph-IsIndexed, put_node-IsIndexed, add_edge-IsIndexed,
}
use smart_bench.Code.Loading.{
  ok, node_to_dict, node_from_dict, edge_to_dict, edge_from_dict, nodes_to_dict, edges_to_list,
  graph_to_dict, put_node, load_nodes, load_edges, graph_from_dict,
}

node_from_dict-node_to_dict : (n : CodeNode) → node_from_dict (node_to_dict n) ≡ ok n
unfolding node_from_dict lookup
node_from_dict-node_to_dict n = rw (node_type_of-node_type_value n.node_type) refl

edge_from_dict-edge_to_dict : (e : CodeEdge) → edge_from_dict (edge_to_dict e) ≡ ok e
unfolding edge_from_dict lookup
edge_from_dict-edge_to_dict e = rw (edge_type_of-edge_type_value e.edge_type) refl

put_nodes : CodeGraph → Dict String CodeNode → CodeGraph
put_nodes g [] = g
put_nodes g ((k, n) ∷ d) = put_nodes (put_node g k n) d

load_nodes-nodes_to_dict :
    (g : CodeGraph) (d : Dict String CodeNode) → load_nodes g (nodes_to_dict d) ≡ ok (put_nodes g d)
unfolding load_nodes nodes_to_dict put_nodes
load_nodes-nodes_to_dict g [] = refl
load_nodes-nodes_to_dict g ((k, n) ∷ d) =
    rw (node_from_dict-node_to_dict n) (load_nodes-nodes_to_dict (put_node g k n) d)

load_edges-edges_to_list :
    (g : CodeGraph) (es : List CodeEdge)
    → load_edges g (items_to_list (edges_to_list es)) ≡ ok (add_edges g es)
unfolding load_edges edges_to_list add_edges
load_edges-edges_to_list g [] = refl
load_edges-edges_to_list g (e ∷ es) =
    rw (edge_from_dict-edge_to_dict e) (load_edges-edges_to_list (add_edge g e) es)

nodes-put_nodes :
    (g : CodeGraph) (d : Dict String CodeNode)
    → unique (Dict.keys (g.nodes ++ d)) ≡ true
    → (put_nodes g d).nodes ≡ g.nodes ++ d
unfolding put_nodes
nodes-put_nodes g [] u = sym (append-nil g.nodes)
nodes-put_nodes g ((k, n) ∷ d) u =
    nodes-put_nodes (put_node g k n) d (ap (λ l. unique (Dict.keys l)) moved ∙ u) ∙ moved
  where
    new : Dict.has_key g.nodes k ≡ false
    new =
        has_key-keys g.nodes k
        ∙ unique-middle (Dict.keys g.nodes) (Dict.keys d) k
            (ap unique (sym (keys-append g.nodes ((k, n) ∷ d))) ∙ u)

    moved : Dict.insert g.nodes k n ++ d ≡ g.nodes ++ (k, n) ∷ d
    moved = ap (λ l. l ++ d) (insert-new g.nodes k n new) ∙ append_assoc g.nodes ((k, n) ∷ []) d

edges-put_nodes : (g : CodeGraph) (d : Dict String CodeNode) → (put_nodes g d).edges ≡ g.edges
unfolding put_nodes
edges-put_nodes g [] = refl
edges-put_nodes g ((k, n) ∷ d) = edges-put_nodes (put_node g k n) d

meta-put_nodes : (g : CodeGraph) (d : Dict String CodeNode) → (put_nodes g d).meta ≡ g.meta
unfolding put_nodes
meta-put_nodes g [] = refl
meta-put_nodes g ((k, n) ∷ d) = meta-put_nodes (put_node g k n) d

meta-add_edges : (g : CodeGraph) (es : List CodeEdge) → (add_edges g es).meta ≡ g.meta
unfolding add_edges add_edge
meta-add_edges g [] = refl
meta-add_edges g (e ∷ es) = meta-add_edges (add_edge g e) es

put_nodes-IsIndexed :
    (g : CodeGraph) (d : Dict String CodeNode) → IsIndexed g → IsIndexed (put_nodes g d)
unfolding put_nodes
put_nodes-IsIndexed g [] h = h
put_nodes-IsIndexed g ((k, n) ∷ d) h =
    put_nodes-IsIndexed (put_node g k n) d (put_node-IsIndexed k n h)

add_edges-IsIndexed :
    (g : CodeGraph) (es : List CodeEdge) → IsIndexed g → IsIndexed (add_edges g es)
unfolding add_edges
add_edges-IsIndexed g [] h = h
add_edges-IsIndexed g (e ∷ es) h = add_edges-IsIndexed (add_edge g e) es (add_edge-IsIndexed e h)

-- The same nodes, edges and attributes, and the same edges listed at every node.
pub record IsSame (g h : CodeGraph) : Type 0 where
  pub nodes : h.nodes ≡ g.nodes
  pub edges : h.edges ≡ g.edges
  pub meta : h.meta ≡ g.meta
  pub out : (k : String) → out_edges h k ≡ out_edges g k
  pub into : (k : String) → in_edges h k ≡ in_edges g k

-- A graph that stores no id twice and whose tables list its edges is read back from its serialised
-- form: `from_dict` succeeds on what `to_dict` returns, and gives the same nodes, edges and attributes
-- and the same edges at every node.
pub graph_from_dict-graph_to_dict :
    (g : CodeGraph)
    → unique (Dict.keys g.nodes) ≡ true
    → IsIndexed g
    → (h : CodeGraph) × (graph_from_dict (graph_to_dict g) ≡ ok h) × IsSame g h
unfolding graph_from_dict graph_to_dict lookup
graph_from_dict-graph_to_dict g u i =
    let nodes = put_nodes (empty_graph g.meta) g.nodes in
    let edges = add_edges nodes g.edges in
    let listed =
      add_edges-IsIndexed nodes g.edges
        (put_nodes-IsIndexed (empty_graph g.meta) g.nodes (empty_graph-IsIndexed g.meta)) in
    let same_edges =
      edges-add_edges nodes g.edges
      ∙ ap (λ es. es ++ g.edges) (edges-put_nodes (empty_graph g.meta) g.nodes) in
    (
      edges,
      rw (load_nodes-nodes_to_dict (empty_graph g.meta) g.nodes)
          (load_edges-edges_to_list nodes g.edges),
      record {
        nodes = nodes-add_edges nodes g.edges ∙ nodes-put_nodes (empty_graph g.meta) g.nodes u;
        edges = same_edges;
        meta = meta-add_edges nodes g.edges ∙ meta-put_nodes (empty_graph g.meta) g.nodes;
        out = λ k. listed.out k ∙ ap (filter (λ e. e.source_id == k)) same_edges ∙ sym (i.out k);
        into = λ k. listed.into k ∙ ap (filter (λ e. e.target_id == k)) same_edges ∙ sym (i.into k);
      },
    )
