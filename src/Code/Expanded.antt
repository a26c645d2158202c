-- ===== src/Code/Expanded.antt =====
-- The result of `CodeGraph.expand` (smartbench/graph/schema.py), and the ends of its edges.
use smart_bench.Prelude.{
  ℕ, String, ◌≡◌, refl, sym, subst, ◌∙◌, Bool, true, false, ◌||◌, Option, none, some, List, [], ◌∷◌,
  ◌==◌, string_eq, pair_eq, unique, map, if◌then◌else◌, IsIn, here, there, Bool-cases, arith, inl,
  inr, beq_refl,
}
use smart_bench.Prelude.Dict
use smart_bench.Prelude.Dict.{Dict, is_some, has_key-get}
use smart_bench.Code.Schema.{CodeNode, CodeEdge, EdgeType, edge_type_eq}
use smart_bench.Code.Graph.{CodeGraph, add_node}
use smart_bench.Code.Expand.{
  edge_key, is_followed, add_found, add_end, add_ends, expand, rounds, start,
}
use smart_bench.Code.Indexed.{IsIndexed}
use smart_bench.Code.Subgraph.{IsKeyed, expand-IsPartOf}

abbrev pub has_node : CodeGraph → String → Bool
has_node g k = Dict.has_key g.nodes k

pub record IsSubgraph (g : CodeGraph) (types : Option (List EdgeType)) (h : CodeGraph)
    : Type 0 where
  pub edges : (e : CodeEdge) → IsIn e h.edges → IsIn e g.edges × (is_followed types e ≡ true)
  pub nodes :
      (k : String) (n : CodeNode) → Dict.get h.nodes k ≡ some n → Dict.get g.nodes k ≡ some n
  pub once : unique (map edge_key h.edges) ≡ true
  pub indexed : IsIndexed h
  pub ends :
      (e : CodeEdge)
      → IsIn e h.edges
      → (has_node g e.source_id ≡ true → has_node h e.source_id ≡ true)
        × (has_node g e.target_id ≡ true → has_node h e.target_id ≡ true)

has_node-add_node :
    (sub : CodeGraph) (n : CodeNode) (k : String)
    → has_node (add_node sub n) k ≡ (n.id == k || has_node sub k)
unfolding add_node
has_node-add_node sub n k =
    rw
      (
        has_key-get (Dict.insert sub.nodes n.id n) k,
        has_key-get sub.nodes k,
        Dict.get-insert sub.nodes n.id k n,
      )
      (by_key (n.id == k))
  where
    by_key :
        (b : Bool)
        → is_some (if b then some n else Dict.get sub.nodes k)
          ≡ (b || is_some (Dict.get sub.nodes k))
    by_key true = refl
    by_key false = refl

module _ (g : CodeGraph) (keyed : IsKeyed g) where
  found-stays :
      (sub : CodeGraph) (o : Option CodeNode) (k : String)
      → has_node sub k ≡ true
      → has_node (add_found sub o) k ≡ true
  found-stays sub none k h = h
  found-stays sub (some n) k h = ground (arith, has_node-add_node sub n k)

  add_end-stays :
      (sub : CodeGraph) (j k : String) → has_node sub k ≡ true → has_node (add_end g sub j) k ≡ true
  unfolding add_end
  add_end-stays sub j k h = elim (Bool-cases (has_node sub j)) [
    | inl e ↦ rw (e) h
    | inr e ↦ rw (e) (found-stays sub (Dict.get g.nodes j) k h)
  ]

  add_ends-stays :
      (es : List CodeEdge) (sub : CodeGraph) (k : String)
      → has_node sub k ≡ true
      → has_node (add_ends g es sub) k ≡ true
  unfolding add_ends
  add_ends-stays [] sub k h = h
  add_ends-stays (e ∷ es) sub k h =
      add_ends-stays es (add_end g (add_end g sub e.source_id) e.target_id) k (
        add_end-stays (add_end g sub e.source_id) e.target_id k (add_end-stays sub e.source_id k h))

  found-copied :
      (sub : CodeGraph) (o : Option CodeNode) (k : String)
      → Dict.get g.nodes k ≡ o
      → is_some o ≡ true
      → has_node (add_found sub o) k ≡ true
  found-copied sub none k m s = absurd (cc)
  found-copied sub (some n) k m s = rw (has_node-add_node sub n k, keyed k n m, beq_refl k) refl

  add_end-copied :
      (sub : CodeGraph) (k : String) → has_node g k ≡ true → has_node (add_end g sub k) k ≡ true
  unfolding add_end
  add_end-copied sub k m = elim (Bool-cases (has_node sub k)) [
    | inl e ↦ rw (e) e
    | inr e ↦
        rw (e) (found-copied sub (Dict.get g.nodes k) k refl (sym (has_key-get g.nodes k) ∙ m))
  ]

  add_ends-copied :
      (es : List CodeEdge) (sub : CodeGraph) (e : CodeEdge)
      → IsIn e es
      → (has_node g e.source_id ≡ true → has_node (add_ends g es sub) e.source_id ≡ true)
        × (has_node g e.target_id ≡ true → has_node (add_ends g es sub) e.target_id ≡ true)
  unfolding add_ends
  add_ends-copied [] sub e m = elim m [ ]
  add_ends-copied (_ ∷ es) sub e here =
      let once = add_end g sub e.source_id in
      let both = add_end g once e.target_id in
      (
        λ m.
            add_ends-stays es both e.source_id
              (add_end-stays once e.target_id e.source_id (add_end-copied sub e.source_id m)),
        λ m. add_ends-stays es both e.target_id (add_end-copied once e.target_id m),
      )
  add_ends-copied (x ∷ es) sub e (there m) =
      add_ends-copied es (add_end g (add_end g sub x.source_id) x.target_id) e m

  edges-add_found : (sub : CodeGraph) (o : Option CodeNode) → (add_found sub o).edges ≡ sub.edges
  unfolding add_node
  edges-add_found sub none = refl
  edges-add_found sub (some n) = refl

  edges-add_end : (sub : CodeGraph) (k : String) → (add_end g sub k).edges ≡ sub.edges
  unfolding add_end
  edges-add_end sub k = elim (Bool-cases (has_node sub k)) [
    | inl e ↦ rw (e) refl
    | inr e ↦ rw (e) (edges-add_found sub (Dict.get g.nodes k))
  ]

  edges-add_ends : (es : List CodeEdge) (sub : CodeGraph) → (add_ends g es sub).edges ≡ sub.edges
  unfolding add_ends
  edges-add_ends [] sub = refl
  edges-add_ends (e ∷ es) sub =
      edges-add_ends es (add_end g (add_end g sub e.source_id) e.target_id)
      ∙ edges-add_end (add_end g sub e.source_id) e.target_id
      ∙ edges-add_end sub e.source_id

-- In a graph whose nodes stand under their ids and whose tables list its edges, `expand` returns, for
-- all seeds, hops, types and directions, a graph whose edges are edges of the graph of a wanted type,
-- no source, target and type twice, whose nodes are the graph's, whose tables list its edges, and
-- which has each end of an edge of its own that the graph has.
pub expand-IsSubgraph :
    (g : CodeGraph) (seeds : List String) (hops : ℕ) (types : Option (List EdgeType))
    (direction : String)
    → IsKeyed g
    → IsIndexed g
    → IsSubgraph g types (expand g seeds hops types direction)
unfolding expand
expand-IsSubgraph g seeds hops types direction keyed i =
    let (a, h) = expand-IsPartOf g types keyed i seeds hops direction in
    let sub = (rounds g types direction hops seeds start).subgraph in
    record {
      edges = h.edges;
      nodes = h.nodes;
      once = h.once;
      indexed = h.indexed;
      ends = λ e m.
          add_ends-copied g keyed sub.edges sub e
            (subst (IsIn e) (edges-add_ends g keyed sub.edges sub) m);
    }
