-- ===== src/Code/Merge.antt =====
-- `CodeGraph.merge` of smartbench/graph/schema.py.
use smart_bench.Prelude.{
  String, ◌≡◌, refl, sym, ap, subst, ◌∙◌, Bool, true, false, Option, none, some, List, [], ◌∷◌,
  ◌++◌, ◌==◌, string_eq, if◌then◌else◌, arith, beq→eq, append_assoc, append-nil,
}
use smart_bench.Prelude.Dict
use smart_bench.Prelude.Dict.{Dict, is_some, has_key-get, is_some-get, or_default}
use smart_bench.Ir.Values.{bool}
use smart_bench.Code.Schema.{CodeNode, CodeEdge}
use smart_bench.Code.Graph.{
  CodeGraph, empty_graph, add_node, add_edge, add_edges, add_nodes, add_new_nodes, merge, set_field,
}
use smart_bench.Code.Keeps.{merge-keeps}
use smart_bench.Code.Indexed.{
  IsIndexed, add_node-IsIndexed, add_edge-IsIndexed, empty_graph-IsIndexed,
}

-- Each entry stands under its node's id, and no id twice: what a dictionary filled by `add_node` is.
abbrev pub IsTable : Dict String CodeNode → Type 0
IsTable [] = Unit
IsTable ((k, n) ∷ d) = (n.id ≡ k) × (Dict.has_key d k ≡ false) × IsTable d

pub nodes-add_edges : (g : CodeGraph) (es : List CodeEdge) → (add_edges g es).nodes ≡ g.nodes
unfolding add_edges add_edge
nodes-add_edges g [] = refl
nodes-add_edges g (e ∷ es) = nodes-add_edges (add_edge g e) es

pub edges-add_edges : (g : CodeGraph) (es : List CodeEdge) → (add_edges g es).edges ≡ g.edges ++ es
unfolding add_edges add_edge
edges-add_edges g [] = sym (append-nil g.edges)
edges-add_edges g (e ∷ es) = edges-add_edges (add_edge g e) es ∙ append_assoc g.edges (e ∷ []) es

edges-add_nodes : (g : CodeGraph) (d : Dict String CodeNode) → (add_nodes g d).edges ≡ g.edges
unfolding add_nodes add_node
edges-add_nodes g [] = refl
edges-add_nodes g ((k, n) ∷ d) = edges-add_nodes (add_node g n) d

edges-if :
    (b : Bool) (g : CodeGraph) (n : CodeNode) → (if b then g else add_node g n).edges ≡ g.edges
unfolding add_node
edges-if true g n = refl
edges-if false g n = refl

edges-add_new_nodes :
    (g : CodeGraph) (d : Dict String CodeNode) → (add_new_nodes g d).edges ≡ g.edges
unfolding add_new_nodes
edges-add_new_nodes g [] = refl
edges-add_new_nodes g ((k, n) ∷ d) =
    edges-add_new_nodes (if Dict.has_key g.nodes k then g else add_node g n) d
    ∙ edges-if (Dict.has_key g.nodes k) g n

-- The first of two answers.
abbrev pub or_else {ℓ} : {A : Type ℓ} → Option A → Option A → Option A
or_else none b = b
or_else (some a) b = some a

get-absent :
    (d : Dict String CodeNode) (k j : String)
    → Dict.has_key d k ≡ false
    → (k == j) ≡ true
    → Dict.get d j ≡ none
unfolding Dict.get Dict.has_key
get-absent [] k j h e = refl
get-absent ((i, v) ∷ d) k j h e = ground (
  arith,
  get-absent d k j,
  string_eq.same_iff i k,
  string_eq.same_iff i j,
  string_eq.same_iff k j,
)

-- Adding a table's nodes in order: the table's node where it has one, else the graph's.
get-add_nodes :
    (g : CodeGraph) (d : Dict String CodeNode) (k : String)
    → IsTable d
    → Dict.get (add_nodes g d).nodes k ≡ or_else (Dict.get d k) (Dict.get g.nodes k)
unfolding add_nodes add_node Dict.get
get-add_nodes g [] k t = refl
get-add_nodes g ((j, n) ∷ d) k (own, new, t) =
    get-add_nodes (add_node g n) d k t
    ∙ rw (Dict.get-insert g.nodes n.id k n) (by_key (n.id == k) refl)
    ∙ ap (λ i. or_else (if i == k then some n else Dict.get d k) (Dict.get g.nodes k)) own
  where
    by_key :
        (b : Bool)
        → (n.id == k) ≡ b
        → or_else (Dict.get d k) (if b then some n else Dict.get g.nodes k)
          ≡ or_else (if b then some n else Dict.get d k) (Dict.get g.nodes k)
    by_key true e =
        rw (get-absent d n.id k (subst (λ i. Dict.has_key d i ≡ false) (sym own) new) e) refl
    by_key false e = refl

get-add_node :
    (g : CodeGraph) (n : CodeNode) (k : String)
    → Dict.get (add_node g n).nodes k ≡ (if n.id == k then some n else Dict.get g.nodes k)
unfolding add_node
get-add_node g n k = Dict.get-insert g.nodes n.id k n

-- Adding only what is new: the graph's node where it has one, else the table's.
get-add_new_nodes :
    (g : CodeGraph) (d : Dict String CodeNode) (k : String)
    → IsTable d
    → Dict.get (add_new_nodes g d).nodes k ≡ or_else (Dict.get g.nodes k) (Dict.get d k)
unfolding add_new_nodes Dict.get
get-add_new_nodes g [] k t = by_answer (Dict.get g.nodes k)
  where
    by_answer : (o : Option CodeNode) → o ≡ or_else o none
    by_answer none = refl
    by_answer (some n) = refl
get-add_new_nodes g ((j, n) ∷ d) k (own, new, t) =
    get-add_new_nodes (if Dict.has_key g.nodes j then g else add_node g n) d k t
    ∙ by_key (Dict.has_key g.nodes j) (j == k) refl refl
  where
    by_answer :
        (o : Option CodeNode) → is_some o ≡ true → or_else o (Dict.get d k) ≡ or_else o (some n)
    by_answer none h = absurd (cc)
    by_answer (some m) h = refl

    get-new :
        {b : Bool}
        → (j == k) ≡ b
        → Dict.get (add_node g n).nodes k ≡ (if b then some n else Dict.get g.nodes k)
    get-new {b} e =
        subst (λ c. Dict.get (add_node g n).nodes k ≡ (if c then some n else Dict.get g.nodes k)) e
          (subst
            (λ i. Dict.get (add_node g n).nodes k ≡ (if i == k then some n else Dict.get g.nodes k))
            own (get-add_node g n k))

    by_key :
        (taken hit : Bool)
        → Dict.has_key g.nodes j ≡ taken
        → (j == k) ≡ hit
        → or_else (Dict.get (if taken then g else add_node g n).nodes k) (Dict.get d k)
          ≡ or_else (Dict.get g.nodes k) (if hit then some n else Dict.get d k)
    by_key true true h e =
        by_answer (Dict.get g.nodes k) (
          sym (has_key-get g.nodes k) ∙ subst (λ i. Dict.has_key g.nodes i ≡ true) (beq→eq j k e) h)
    by_key true false h e = refl
    by_key false true h e = rw (get-new e, get-absent g.nodes j k h e) refl
    by_key false false h e = rw (get-new e) refl

nodes-merge :
    (g other : CodeGraph) (k : String)
    → IsTable g.nodes
    → IsTable other.nodes
    → Dict.get (merge g other).nodes k ≡ or_else (Dict.get g.nodes k) (Dict.get other.nodes k)
unfolding merge Dict.get
nodes-merge g other k t u =
    let start = empty_graph (set_field g.meta "merged_languages" (bool true)) in
    let own = add_edges (add_nodes start g.nodes) g.edges in
    rw (nodes-add_edges (add_new_nodes own other.nodes) other.edges) (
      get-add_new_nodes own other.nodes k u
      ∙ rw (nodes-add_edges (add_nodes start g.nodes) g.edges, get-add_nodes start g.nodes k t)
          (by_answer (Dict.get g.nodes k)))
  where
    by_answer :
        (o : Option CodeNode)
        → or_else (or_else o none) (Dict.get other.nodes k) ≡ or_else o (Dict.get other.nodes k)
    by_answer none = refl
    by_answer (some n) = refl

edges-merge : (g other : CodeGraph) → (merge g other).edges ≡ g.edges ++ other.edges
unfolding merge
edges-merge g other =
    let start = empty_graph (set_field g.meta "merged_languages" (bool true)) in
    let own = add_edges (add_nodes start g.nodes) g.edges in
    edges-add_edges (add_new_nodes own other.nodes) other.edges
    ∙ ap (λ es. es ++ other.edges)
        (edges-add_new_nodes own other.nodes
          ∙ edges-add_edges (add_nodes start g.nodes) g.edges
          ∙ ap (λ es. es ++ g.edges) (edges-add_nodes start g.nodes))

-- The union of two graphs whose nodes stand under their ids, no id twice: a node is the first graph's
-- where it has one under that id, else the second's; the edges are all edges of both in order; and the
-- adjacency tables list those edges.
pub merge_lem :
    (g other : CodeGraph)
    → IsTable g.nodes
    → IsTable other.nodes
    → ((k : String)
        → Dict.get (merge g other).nodes k ≡ or_else (Dict.get g.nodes k) (Dict.get other.nodes k))
      × ((merge g other).edges ≡ g.edges ++ other.edges)
      × IsIndexed (merge g other)
merge_lem g other t u = (
  λ k. nodes-merge g other k t u,
  edges-merge g other,
  merge-keeps IsIndexed (λ h n. add_node-IsIndexed n) (λ h e. add_edge-IsIndexed e) g other
      empty_graph-IsIndexed,
)
