-- ===== src/Code/Graph.antt =====
-- `CodeGraph`: its state, its two mutators, its queries and the union of two graphs.
use smart_bench.Prelude.{
  String, Bool, true, Option, none, some, List, [], ◌∷◌, ◌++◌, ◌==◌, ◌&&◌, string_eq, Eq, filter,
  contains, if◌then◌else◌,
}
use smart_bench.Prelude.Dict.{Dict}
use smart_bench.Prelude.Dict
use smart_bench.Ir.Values.{Value, Fields, PyText, end, field, bool}
use smart_bench.Code.Schema.{
  CodeNode, CodeEdge, NodeType, edge_type_eq, node_type_eq, node_type_of, calls,
}

pub record CodeGraph : Type 0 where
  pub nodes : Dict String CodeNode
  pub edges : List CodeEdge
  pub adj_out : Dict String (List CodeEdge)
  pub adj_in : Dict String (List CodeEdge)
  pub meta : Fields

abbrev pub empty_graph : Fields → CodeGraph
empty_graph meta = record { nodes = []; edges = []; adj_out = []; adj_in = []; meta = meta }

-- `adj.setdefault(key, [])`, and the guarded assignment of `add_node`.
unfoldable pub ensure_key : Dict String (List CodeEdge) → String → Dict String (List CodeEdge)
ensure_key d k = if Dict.has_key d k then d else Dict.insert d k []

-- `adj.setdefault(key, []).append(edge)`
unfoldable pub append_edge :
    Dict String (List CodeEdge) → String → CodeEdge → Dict String (List CodeEdge)
append_edge d k e = Dict.insert d k (Dict.get_or d k [] ++ e ∷ [])

unfoldable pub add_node : CodeGraph → CodeNode → CodeGraph
add_node g n = record {
  nodes = Dict.insert g.nodes n.id n;
  edges = g.edges;
  adj_out = ensure_key g.adj_out n.id;
  adj_in = ensure_key g.adj_in n.id;
  meta = g.meta;
}

unfoldable pub add_edge : CodeGraph → CodeEdge → CodeGraph
add_edge g e = record {
  nodes = g.nodes;
  edges = g.edges ++ e ∷ [];
  adj_out = append_edge g.adj_out e.source_id e;
  adj_in = append_edge g.adj_in e.target_id e;
  meta = g.meta;
}

-- The edges that `_adj_out` and `_adj_in` list under a node's id.
abbrev pub out_edges : CodeGraph → String → List CodeEdge
out_edges g k = Dict.get_or g.adj_out k []

abbrev pub in_edges : CodeGraph → String → List CodeEdge
in_edges g k = Dict.get_or g.adj_in k []

-- A set's elements, in the order in which they are added.
unfoldable pub set_add {ℓ} : {A : Type ℓ} ⦃e : Eq A⦄ → List A → A → List A
set_add s x = if contains x s then s else s ++ x ∷ []

-- The ids of the `calls` edges at one of their ends.
unfoldable pub call_ends : (CodeEdge → String) → List CodeEdge → List String → List String
unfolding set_add
call_ends at_end [] ids = ids
call_ends at_end (e ∷ es) ids =
    call_ends at_end es (if e.edge_type == calls then set_add ids (at_end e) else ids)

abbrev pub found : Option CodeNode → List CodeNode → List CodeNode
found none ns = ns
found (some n) ns = n ∷ ns

-- `[self.nodes[nid] for nid in ids if nid in self.nodes]`
unfoldable pub known_nodes : CodeGraph → List String → List CodeNode
known_nodes g [] = []
known_nodes g (k ∷ ks) = found (Dict.get g.nodes k) (known_nodes g ks)

unfoldable pub get_callers : CodeGraph → String → List CodeNode
unfolding call_ends known_nodes
get_callers g k = known_nodes g (call_ends (λ e. e.source_id) (in_edges g k) [])

unfoldable pub get_callees : CodeGraph → String → List CodeNode
unfolding call_ends known_nodes
get_callees g k = known_nodes g (call_ends (λ e. e.target_id) (out_edges g k) [])

-- The argument `node_type`: absent, a member, or the text of one.
pub data TypeFilter : Type 0 where
  any_type : TypeFilter
  member : NodeType → TypeFilter
  named : String → TypeFilter

unfoldable pub target_type : TypeFilter → Option NodeType
target_type any_type = none
target_type (member t) = some t
target_type (named s) = node_type_of s

abbrev has_type : Option NodeType → CodeNode → Bool
has_type none n = true
has_type (some t) n = n.node_type == t

unfoldable pub find_by_name : PyText → CodeGraph → String → TypeFilter → List CodeNode
unfolding target_type
find_by_name py g name t =
    filter
      (λ (n : CodeNode).
        py.is_within (py.lower name) (py.lower n.name) && has_type (target_type t) n)
      (Dict.values g.nodes)

-- `dict[key] = value` on the attributes `meta`
unfoldable pub set_field : Fields → String → Value → Fields
set_field end k v = field k v end
set_field (field j w fs) k v = if j == k then field j v fs else field j w (set_field fs k v)

unfoldable pub add_edges : CodeGraph → List CodeEdge → CodeGraph
unfolding add_edge
add_edges g [] = g
add_edges g (e ∷ es) = add_edges (add_edge g e) es

unfoldable pub add_nodes : CodeGraph → Dict String CodeNode → CodeGraph
unfolding add_node
add_nodes g [] = g
add_nodes g ((k, n) ∷ d) = add_nodes (add_node g n) d

-- The second loop over nodes: those whose key is taken are skipped.
unfoldable pub add_new_nodes : CodeGraph → Dict String CodeNode → CodeGraph
unfolding add_node
add_new_nodes g [] = g
add_new_nodes g ((k, n) ∷ d) = add_new_nodes (if Dict.has_key g.nodes k then g else add_node g n) d

unfoldable pub merge : CodeGraph → CodeGraph → CodeGraph
unfolding add_edges add_nodes add_new_nodes set_field
merge g other =
    let start = empty_graph (set_field g.meta "merged_languages" (bool true)) in
    let own = add_edges (add_nodes start g.nodes) g.edges in
    add_edges (add_new_nodes own other.nodes) other.edges
