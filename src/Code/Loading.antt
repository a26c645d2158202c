-- ===== src/Code/Loading.antt =====
-- `to_dict` and `from_dict` of nodes, edges and graphs.
use smart_bench.Prelude.{ℕ, String, Option, none, some, List, [], ◌∷◌, string_eq}
use smart_bench.Prelude.Dict.{Dict, or_default}
use smart_bench.Prelude.Dict
use smart_bench.Ir.Values.{
  Value, Items, Fields, null, bool, int, neg_int, str, arr, obj, other, nil, cons, end, field,
  items_to_list,
}
use smart_bench.Debate.Gate.{lookup}
use smart_bench.Code.Schema.{
  CodeNode, CodeEdge, node_type_value, edge_type_value, node_type_of, edge_type_of,
}
use smart_bench.Code.Graph.{CodeGraph, empty_graph, ensure_key, add_edge}

-- The outcome of a `from_dict`: KeyError on a missing key, ValueError on a text that is no member of an
-- enumeration. `ill_typed` is a value of a type other than the annotated one: Python keeps it or
-- fails when it uses it, and it is outside of the model.
pub data Loaded {ℓ} (A : Type ℓ) : Type ℓ where
  ok : A → Loaded A
  key_error : String → Loaded A
  value_error ill_typed : Loaded A

infixl 1 ◌>>=◌
abbrev pub ◌>>=◌ {ℓ κ} : {A : Type ℓ} {B : Type κ} → Loaded A → (A → Loaded B) → Loaded B
ok a >>= f = f a
key_error k >>= f = key_error k
value_error >>= f = value_error
ill_typed >>= f = ill_typed

abbrev pub as_text : Value → Loaded String
as_text (str s) = ok s
as_text null = ill_typed
as_text (bool b) = ill_typed
as_text (int n) = ill_typed
as_text (neg_int n) = ill_typed
as_text (arr xs) = ill_typed
as_text (obj fs) = ill_typed
as_text (other n) = ill_typed

abbrev pub as_number : Value → Loaded ℕ
as_number (int n) = ok n
as_number null = ill_typed
as_number (bool b) = ill_typed
as_number (neg_int n) = ill_typed
as_number (str s) = ill_typed
as_number (arr xs) = ill_typed
as_number (obj fs) = ill_typed
as_number (other n) = ill_typed

abbrev pub as_fields : Value → Loaded Fields
as_fields (obj fs) = ok fs
as_fields null = ill_typed
as_fields (bool b) = ill_typed
as_fields (int n) = ill_typed
as_fields (neg_int n) = ill_typed
as_fields (str s) = ill_typed
as_fields (arr xs) = ill_typed
as_fields (other n) = ill_typed

abbrev pub as_items : Value → Loaded (List Value)
as_items (arr xs) = ok (items_to_list xs)
as_items null = ill_typed
as_items (bool b) = ill_typed
as_items (int n) = ill_typed
as_items (neg_int n) = ill_typed
as_items (str s) = ill_typed
as_items (obj fs) = ill_typed
as_items (other n) = ill_typed

abbrev or_key_error : String → Option Value → Loaded Value
or_key_error key none = key_error key
or_key_error key (some v) = ok v

-- `d[key]`
abbrev require : Fields → String → Loaded Value
require d key = or_key_error key (lookup d key)

-- `d.get(key, default)`
abbrev read_or : Fields → String → Value → Value
read_or d key v = or_default (lookup d key) v

abbrev or_value_error {ℓ} : {A : Type ℓ} → Option A → Loaded A
or_value_error none = value_error
or_value_error (some a) = ok a

abbrev pub node_to_dict : CodeNode → Fields
node_to_dict n = field "id" (str n.id) (
    field "node_type" (str (node_type_value n.node_type)) (
      field "name" (str n.name) (
        field "file_path" (str n.file_path) (
          field "line_start" (int n.line_start) (
            field "line_end" (int n.line_end)
              (field "language" (str n.language) (field "properties" (obj n.properties) end)))))))

unfoldable pub node_from_dict : Fields → Loaded CodeNode
unfolding lookup node_type_of
node_from_dict d = require d "id" >>= λ v. as_text v >>= λ i. require d "node_type" >>= λ v.
    as_text v >>= λ s. or_value_error (node_type_of s) >>= λ t. require d "name" >>= λ v.
    as_text v >>= λ name. require d "file_path" >>= λ v. as_text v >>= λ path.
    as_number (read_or d "line_start" (int 0)) >>= λ first.
    as_number (read_or d "line_end" (int 0)) >>= λ last.
    as_text (read_or d "language" (str "")) >>= λ lang.
    as_fields (read_or d "properties" (obj end)) >>= λ props. ok (record {
      id = i;
      node_type = t;
      name = name;
      file_path = path;
      line_start = first;
      line_end = last;
      language = lang;
      properties = props;
    })

abbrev pub edge_to_dict : CodeEdge → Fields
edge_to_dict e = field "source_id" (str e.source_id) (
    field "target_id" (str e.target_id) (
      field "edge_type" (str (edge_type_value e.edge_type))
        (field "properties" (obj e.properties) end)))

unfoldable pub edge_from_dict : Fields → Loaded CodeEdge
unfolding lookup edge_type_of
edge_from_dict d = require d "source_id" >>= λ v. as_text v >>= λ a. require d "target_id" >>= λ v.
    as_text v >>= λ b. require d "edge_type" >>= λ v. as_text v >>= λ s.
    or_value_error (edge_type_of s) >>= λ t.
    as_fields (read_or d "properties" (obj end)) >>= λ props.
    ok (record { source_id = a; target_id = b; edge_type = t; properties = props })

unfoldable pub nodes_to_dict : Dict String CodeNode → Fields
nodes_to_dict [] = end
nodes_to_dict ((k, n) ∷ d) = field k (obj (node_to_dict n)) (nodes_to_dict d)

unfoldable pub edges_to_list : List CodeEdge → Items
edges_to_list [] = nil
edges_to_list (e ∷ es) = cons (obj (edge_to_dict e)) (edges_to_list es)

unfoldable pub graph_to_dict : CodeGraph → Fields
unfolding nodes_to_dict edges_to_list
graph_to_dict g =
    field "nodes" (obj (nodes_to_dict g.nodes))
      (field "edges" (arr (edges_to_list g.edges)) (field "meta" (obj g.meta) end))

-- `graph.nodes[nid] = node` and the two `setdefault`s.
abbrev pub put_node : CodeGraph → String → CodeNode → CodeGraph
put_node g k n = record {
  nodes = Dict.insert g.nodes k n;
  edges = g.edges;
  adj_out = ensure_key g.adj_out k;
  adj_in = ensure_key g.adj_in k;
  meta = g.meta;
}

-- The loop over `nodes.items()`.
unfoldable pub load_nodes : CodeGraph → Fields → Loaded CodeGraph
unfolding node_from_dict
load_nodes g end = ok g
load_nodes g (field k v fs) =
    as_fields v >>= λ d. node_from_dict d >>= λ n. load_nodes (put_node g k n) fs

-- The loop over the edges; its three steps are those of `add_edge`.
unfoldable pub load_edges : CodeGraph → List Value → Loaded CodeGraph
unfolding edge_from_dict add_edge
load_edges g [] = ok g
load_edges g (v ∷ vs) = as_fields v >>= λ d. edge_from_dict d >>= λ e. load_edges (add_edge g e) vs

unfoldable pub graph_from_dict : Fields → Loaded CodeGraph
unfolding lookup load_nodes load_edges
graph_from_dict d = as_fields (read_or d "meta" (obj end)) >>= λ meta.
    as_fields (read_or d "nodes" (obj end)) >>= λ nodes.
    load_nodes (empty_graph meta) nodes >>= λ g.
    as_items (read_or d "edges" (arr nil)) >>= λ edges. load_edges g edges
