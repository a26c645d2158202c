-- ===== src/Code/Keeps.antt =====
-- Predicates on graphs through the loops of `merge` and `expand` (smartbench/graph/schema.py).
use smart_bench.Prelude.{
  ℕ, zero, suc, String, ◌≡◌, ◌⊎◌, inl, inr, refl, Bool, true, false, Option, none, some, List, [],
  ◌∷◌, string_eq, pair_eq, contains, if◌then◌else◌, IsIn, here, there, Bool-cases,
}
use smart_bench.Prelude.Dict
use smart_bench.Prelude.Dict.{Dict}
use smart_bench.Ir.Values.{Fields, end}
use smart_bench.Code.Schema.{CodeNode, CodeEdge, EdgeType, edge_type_eq}
use smart_bench.Code.Graph.{
  CodeGraph, empty_graph, add_node, add_edge, add_edges, add_nodes, add_new_nodes, merge, out_edges,
  in_edges,
}
use smart_bench.Code.Expand.{
  Expansion, edge_key, is_followed, add_edge_once, to_frontier, follow, copy_node, add_found,
  follow_if, goes_in, goes_out, frontier_of, expand_node, expand_frontier, with_empty_frontier,
  rounds, add_end, add_ends, expand, start,
}

-- A property kept by every added node and edge.
module _ {ℓ} (P : CodeGraph → Type ℓ)
    (kept_node : (g : CodeGraph) (n : CodeNode) → P g → P (add_node g n))
    (kept_edge : (g : CodeGraph) (e : CodeEdge) → P g → P (add_edge g e)) where
  pub add_edges-keeps : (g : CodeGraph) (es : List CodeEdge) → P g → P (add_edges g es)
  unfolding add_edges
  add_edges-keeps g [] h = h
  add_edges-keeps g (e ∷ es) h = add_edges-keeps (add_edge g e) es (kept_edge g e h)

  pub add_nodes-keeps : (g : CodeGraph) (d : Dict String CodeNode) → P g → P (add_nodes g d)
  unfolding add_nodes
  add_nodes-keeps g [] h = h
  add_nodes-keeps g ((k, n) ∷ d) h = add_nodes-keeps (add_node g n) d (kept_node g n h)

  kept_if : (b : Bool) (g : CodeGraph) (n : CodeNode) → P g → P (if b then g else add_node g n)
  kept_if true g n h = h
  kept_if false g n h = kept_node g n h

  pub add_new_nodes-keeps : (g : CodeGraph) (d : Dict String CodeNode) → P g → P (add_new_nodes g d)
  unfolding add_new_nodes
  add_new_nodes-keeps g [] h = h
  add_new_nodes-keeps g ((k, n) ∷ d) h =
      add_new_nodes-keeps (if Dict.has_key g.nodes k then g else add_node g n) d
        (kept_if (Dict.has_key g.nodes k) g n h)

  pub merge-keeps :
      (g other : CodeGraph) → ((meta : Fields) → P (empty_graph meta)) → P (merge g other)
  unfolding merge
  merge-keeps g other h = add_edges-keeps _ other.edges (
      add_new_nodes-keeps _ other.nodes
        (add_edges-keeps _ g.edges (add_nodes-keeps _ g.nodes (h _))))

-- A property of expansions kept by adding a node of the graph, and a followed edge of its tables
-- whose key is new.
module _ {ℓ} (g : CodeGraph) (types : Option (List EdgeType))
    (P : List (String × (String × EdgeType)) → CodeGraph → Type ℓ)
    (kept_node : (a : _) (sub : CodeGraph) (k : String) (n : CodeNode)
      → Dict.get g.nodes k ≡ some n
      → P a sub
      → P a (add_node sub n))
    (kept_edge : (a : _) (sub : CodeGraph) (k : String) (e : CodeEdge)
      → IsIn e (out_edges g k) ⊎ IsIn e (in_edges g k)
      → is_followed types e ≡ true
      → contains (edge_key e) a ≡ false
      → P a sub
      → P (edge_key e ∷ a) (add_edge sub e)) where
  abbrev Holds : Expansion → Type ℓ
  Holds x = P x.added_edges x.subgraph

  -- The lists that are followed are the graph's.
  abbrev IsListed : List CodeEdge → Type 0
  IsListed es =
      (e : CodeEdge) → IsIn e es → (k : String) × (IsIn e (out_edges g k) ⊎ IsIn e (in_edges g k))

  add_edge_once-keeps :
      (x : Expansion) (e : CodeEdge) (k : String)
      → IsIn e (out_edges g k) ⊎ IsIn e (in_edges g k)
      → is_followed types e ≡ true
      → Holds x
      → Holds (add_edge_once x e)
  unfolding add_edge_once
  add_edge_once-keeps x e k m f h = elim (Bool-cases (contains (edge_key e) x.added_edges)) [
    | inl old ↦ rw (old) h
    | inr new ↦ rw (new) (kept_edge x.added_edges x.subgraph k e m f new h)
  ]

  follow-keeps :
      (far : CodeEdge → String) (es : List CodeEdge) (x : Expansion)
      → IsListed es
      → Holds x
      → Holds (follow types far es x)
  unfolding follow
  follow-keeps far [] x l h = h
  follow-keeps far (e ∷ es) x l h =
      follow-keeps far es
        (if is_followed types e then to_frontier (add_edge_once x e) (far e) else x)
        (λ y m. l y (there m)) (by_type (is_followed types e) refl)
    where
      by_type :
          (b : Bool)
          → is_followed types e ≡ b
          → Holds (if b then to_frontier (add_edge_once x e) (far e) else x)
      by_type true f = add_edge_once-keeps x e (l e here).0 (l e here).1 f h
      by_type false f = h

  add_found-keeps :
      (a : _) (sub : CodeGraph) (k : String) (o : Option CodeNode)
      → Dict.get g.nodes k ≡ o
      → P a sub
      → P a (add_found sub o)
  add_found-keeps a sub k none e h = h
  add_found-keeps a sub k (some n) e h = kept_node a sub k n e h

  copy_node-keeps : (a : _) (sub : CodeGraph) (k : String) → P a sub → P a (copy_node g sub k)
  copy_node-keeps a sub k = add_found-keeps a sub k (Dict.get g.nodes k) refl

  follow_if-keeps :
      (b : Bool) (far : CodeEdge → String) (es : List CodeEdge) (x : Expansion)
      → IsListed es
      → Holds x
      → Holds (follow_if b types far es x)
  follow_if-keeps true far es x l h = follow-keeps far es x l h
  follow_if-keeps false far es x l h = h

  expand_node-keeps :
      (direction k : String) (x : Expansion) → Holds x → Holds (expand_node g types direction k x)
  unfolding expand_node
  expand_node-keeps direction k x h = elim (Bool-cases (contains k x.visited)) [
    | inl seen ↦ rw (seen) h
    | inr new ↦ rw (new) (
        follow_if-keeps (goes_in direction) (λ e. e.source_id) (in_edges g k) _ (λ e m. (k, inr m))
          (follow_if-keeps (goes_out direction) (λ e. e.target_id) (out_edges g k) _
            (λ e m. (k, inl m)) (copy_node-keeps x.added_edges x.subgraph k h)))
  ]

  expand_frontier-keeps :
      (direction : String) (ks : List String) (x : Expansion)
      → Holds x
      → Holds (expand_frontier g types direction ks x)
  unfolding expand_frontier
  expand_frontier-keeps direction [] x h = h
  expand_frontier-keeps direction (k ∷ ks) x h =
      expand_frontier-keeps direction ks (expand_node g types direction k x)
        (expand_node-keeps direction k x h)

  pub rounds-keeps :
      (direction : String) (hops : ℕ) (frontier : List String) (x : Expansion)
      → Holds x
      → Holds (rounds g types direction hops frontier x)
  unfolding rounds
  rounds-keeps direction zero frontier x h = h
  rounds-keeps direction (suc hops) frontier x h =
      let after = expand_frontier g types direction frontier (with_empty_frontier x) in
      rounds-keeps direction hops (frontier_of after) after
        (expand_frontier-keeps direction frontier (with_empty_frontier x) h)

  add_end-keeps : (a : _) (sub : CodeGraph) (k : String) → P a sub → P a (add_end g sub k)
  unfolding add_end
  add_end-keeps a sub k h = elim (Bool-cases (Dict.has_key sub.nodes k)) [
    | inl e ↦ rw (e) h
    | inr e ↦ rw (e) (copy_node-keeps a sub k h)
  ]

  add_ends-keeps :
      (a : _) (es : List CodeEdge) (sub : CodeGraph) → P a sub → P a (add_ends g es sub)
  unfolding add_ends
  add_ends-keeps a [] sub h = h
  add_ends-keeps a (e ∷ es) sub h =
      add_ends-keeps a es (add_end g (add_end g sub e.source_id) e.target_id)
        (add_end-keeps a _ e.target_id (add_end-keeps a sub e.source_id h))

  -- With the keys of the edges that were added.
  pub expand-keeps :
      (seeds : List String) (hops : ℕ) (direction : String)
      → P [] (empty_graph end)
      → (a : List (String × (String × EdgeType))) × P a (expand g seeds hops types direction)
  unfolding expand
  expand-keeps seeds hops direction h =
      let x = rounds g types direction hops seeds start in
      (
        x.added_edges,
        add_ends-keeps x.added_edges x.subgraph.edges x.subgraph
            (rounds-keeps direction hops seeds start h),
      )
