-- ===== src/Code/Subgraph.antt =====
-- The invariant of the loops of `CodeGraph.expand` (smartbench/graph/schema.py), and its lemmas.
use smart_bench.Prelude.{
  ℕ, String, ◌≡◌, ◌⊎◌, inl, inr, refl, sym, subst, ◌∙◌, Bool, true, false, Option, some, none, List,
  [], ◌∷◌, ◌==◌, string_eq, pair_eq, contains, contains-append, unique, unique-snoc, map,
  map-append, if◌then◌else◌, IsIn, here, there, IsIn-append, IsIn-filter, beq→eq, arith,
}
use smart_bench.Prelude.Dict
use smart_bench.Prelude.Dict.{Dict, is_some, has_key-get}
use smart_bench.Ir.Values.{end, Fields}
use smart_bench.Code.Schema.{CodeNode, CodeEdge, EdgeType, edge_type_eq}
use smart_bench.Code.Graph.{CodeGraph, empty_graph, add_node, add_edge, out_edges, in_edges}
use smart_bench.Code.Expand.{edge_key, is_followed, expand}
use smart_bench.Code.Keeps.{expand-keeps}
use smart_bench.Code.Indexed.{
  IsIndexed, add_node-IsIndexed, add_edge-IsIndexed, empty_graph-IsIndexed,
}

-- The nodes are stored under their ids.
abbrev pub IsKeyed : CodeGraph → Type 0
IsKeyed g = (k : String) (n : CodeNode) → Dict.get g.nodes k ≡ some n → n.id ≡ k

pub empty-IsKeyed : (meta : Fields) → IsKeyed (empty_graph meta)
unfolding Dict.get
empty-IsKeyed meta k n e = absurd (cc)

pub add_edge-IsKeyed : (g : CodeGraph) (e : CodeEdge) → IsKeyed g → IsKeyed (add_edge g e)
unfolding add_edge
add_edge-IsKeyed g e h = h

pub add_node-IsKeyed : (g : CodeGraph) (n : CodeNode) → IsKeyed g → IsKeyed (add_node g n)
unfolding add_node
add_node-IsKeyed g n h k m e = by_key (n.id == k) refl (sym (Dict.get-insert g.nodes n.id k n) ∙ e)
  where
    id_of : Option CodeNode → String
    id_of none = k
    id_of (some x) = x.id

    by_key :
        (b : Bool)
        → (n.id == k) ≡ b
        → (if b then some n else Dict.get g.nodes k) ≡ some m
        → m.id ≡ k
    by_key true hit p = subst (λ o. id_of o ≡ k) p (beq→eq n.id k hit)
    by_key false miss p = h k m p

pub record IsPartOf (g : CodeGraph) (types : Option (List EdgeType))
    (a : List (String × (String × EdgeType))) (sub : CodeGraph) : Type 0 where
  pub edges : (e : CodeEdge) → IsIn e sub.edges → IsIn e g.edges × (is_followed types e ≡ true)
  pub nodes :
      (k : String) (n : CodeNode) → Dict.get sub.nodes k ≡ some n → Dict.get g.nodes k ≡ some n
  pub once : unique (map edge_key sub.edges) ≡ true
  pub noted :
      (k : String × (String × EdgeType)) → contains k (map edge_key sub.edges) ≡ contains k a
  pub indexed : IsIndexed sub

module _ (g : CodeGraph) (types : Option (List EdgeType)) (keyed : IsKeyed g)
    (i : IsIndexed g) where
  empty-IsPartOf : IsPartOf g types [] (empty_graph end)
  unfolding Dict.get
  empty-IsPartOf = record {
    edges = λ e m. elim m [ ];
    nodes = λ k n e. absurd (cc);
    once = refl;
    noted = λ k. refl;
    indexed = empty_graph-IsIndexed end;
  }

  node-IsPartOf :
      (a : _) (sub : CodeGraph) (k : String) (n : CodeNode)
      → Dict.get g.nodes k ≡ some n
      → IsPartOf g types a sub
      → IsPartOf g types a (add_node sub n)
  unfolding add_node
  node-IsPartOf a sub k n m h = record {
    edges = h.edges;
    nodes = λ j v e. by_key j v (n.id == j) refl (sym (Dict.get-insert sub.nodes n.id j n) ∙ e);
    once = h.once;
    noted = h.noted;
    indexed = add_node-IsIndexed n h.indexed;
  }
    where
      by_key :
          (j : String) (v : CodeNode) (b : Bool)
          → (n.id == j) ≡ b
          → (if b then some n else Dict.get sub.nodes j) ≡ some v
          → Dict.get g.nodes j ≡ some v
      by_key j v true hit e =
          subst (λ l. Dict.get g.nodes l ≡ some v) (sym (keyed k n m) ∙ beq→eq n.id j hit) (m ∙ e)
      by_key j v false miss e = h.nodes j v e

  listed :
      (k : String) (e : CodeEdge) → IsIn e (out_edges g k) ⊎ IsIn e (in_edges g k) → IsIn e g.edges
  listed k e (inl m) = (IsIn-filter _ g.edges (subst (IsIn e) (i.out k) m)).0
  listed k e (inr m) = (IsIn-filter _ g.edges (subst (IsIn e) (i.into k) m)).0

  edge-IsPartOf :
      (a : _) (sub : CodeGraph) (k : String) (e : CodeEdge)
      → IsIn e (out_edges g k) ⊎ IsIn e (in_edges g k)
      → is_followed types e ≡ true
      → contains (edge_key e) a ≡ false
      → IsPartOf g types a sub
      → IsPartOf g types (edge_key e ∷ a) (add_edge sub e)
  unfolding add_edge
  edge-IsPartOf a sub k e m f new h = record {
    edges = λ y q. in_edges_of y (IsIn-append sub.edges (e ∷ []) q);
    nodes = h.nodes;
    once =
        rw
          (
            map-append edge_key sub.edges (e ∷ []),
            unique-snoc (edge_key e) (map edge_key sub.edges),
            h.noted (edge_key e),
            new,
            h.once,
          )
          refl;
    noted = λ j.
        rw
          (
            map-append edge_key sub.edges (e ∷ []),
            contains-append j (map edge_key sub.edges) (edge_key e ∷ []),
            h.noted j,
          )
          ground arith;
    indexed = add_edge-IsIndexed e h.indexed;
  }
    where
      in_edges_of :
          (y : CodeEdge)
          → IsIn y sub.edges ⊎ IsIn y (e ∷ [])
          → IsIn y g.edges × (is_followed types y ≡ true)
      in_edges_of y (inl q) = h.edges y q
      in_edges_of y (inr here) = (listed k e m, f)
      in_edges_of y (inr (there q)) = elim q [ ]

  -- Whatever the seeds, the number of hops and the direction, every edge of the expansion is an edge of
  -- the graph of a wanted type, every node is the graph's under the same id, no source, target and
  -- type occurs twice, and the expansion's adjacency tables list its edges.
  pub expand-IsPartOf :
      (seeds : List String) (hops : ℕ) (direction : String)
      → (a : _) × IsPartOf g types a (expand g seeds hops types direction)
  expand-IsPartOf seeds hops direction =
      expand-keeps g types (IsPartOf g types) node-IsPartOf edge-IsPartOf seeds hops direction
        empty-IsPartOf
