-- ===== src/Code/Indexed.antt =====
-- The predicate that the adjacency tables list the edges of smartbench/graph/schema.py's `CodeGraph`, and its lemmas.
use smart_bench.Prelude.{
  String, ◌≡◌, ◌⊎◌, inl, inr, refl, true, false, List, [], ◌∷◌, ◌++◌, ◌==◌, string_eq, filter,
  filter-append, arith, Bool-cases, if◌then◌else◌, ◌∙◌, sym, ap, beq→eq, append-nil,
}
use smart_bench.Prelude.Dict
use smart_bench.Prelude.Dict.{Dict}
use smart_bench.Ir.Values.{Fields}
use smart_bench.Code.Loading.{put_node}
use smart_bench.Code.Schema.{CodeNode, CodeEdge}
use smart_bench.Code.Graph.{CodeGraph, empty_graph, ensure_key, append_edge, add_node, add_edge}

-- A table that lists under each key the edges whose `near` end it is.
abbrev pub Lists : (CodeEdge → String) → Dict String (List CodeEdge) → List CodeEdge → Type 0
Lists near d es = (k : String) → Dict.get_or d k [] ≡ filter (λ e. near e == k) es

get_or-absent :
    (d : Dict String (List CodeEdge)) (k : String)
    → Dict.has_key d k ≡ false
    → Dict.get_or d k [] ≡ []
unfolding Dict.get_or Dict.has_key Dict.get
get_or-absent [] k h = refl
get_or-absent ((j, w) ∷ d) k h = ground (arith, get_or-absent d k)

-- A key that is added lists nothing, as an absent key does.
pub get_or-ensure_key :
    (d : Dict String (List CodeEdge)) (k j : String)
    → Dict.get_or (ensure_key d k) j [] ≡ Dict.get_or d j []
unfolding ensure_key
get_or-ensure_key d k j = elim (Bool-cases (Dict.has_key d k)) [
  | inl e ↦ rw (e) refl
  | inr e ↦ rw (e, Dict.get_or-insert d k j [] []) (by_key (Bool-cases (k == j)) e)
]
  where
    by_key :
        (k == j ≡ true) ⊎ (k == j ≡ false)
        → Dict.has_key d k ≡ false
        → (if k == j then [] else Dict.get_or d j []) ≡ Dict.get_or d j []
    by_key (inl hit) e = rw (hit) (sym (get_or-absent d j (rw (sym (beq→eq k j hit)) e)))
    by_key (inr miss) e = rw (miss) refl

pub Lists-append_edge :
    (near : CodeEdge → String) (d : Dict String (List CodeEdge)) (es : List CodeEdge) (e : CodeEdge)
    → Lists near d es
    → Lists near (append_edge d (near e) e) (es ++ e ∷ [])
unfolding append_edge
Lists-append_edge near d es e h k = elim (Bool-cases (near e == k)) [
  | inl hit ↦
      rw
        (
          Dict.get_or-insert d (near e) k (Dict.get_or d (near e) [] ++ e ∷ []) [],
          filter-append (λ x. near x == k) es (e ∷ []),
          hit,
        )
        (ap (λ l. l ++ e ∷ []) (ap (λ j. Dict.get_or d j []) (beq→eq (near e) k hit) ∙ h k))
  | inr miss ↦
      rw
        (
          Dict.get_or-insert d (near e) k (Dict.get_or d (near e) [] ++ e ∷ []) [],
          filter-append (λ x. near x == k) es (e ∷ []),
          miss,
          append-nil,
        )
        (h k)
]

-- Both tables.
pub record IsIndexed (g : CodeGraph) : Type 0 where
  pub out : Lists (λ e. e.source_id) g.adj_out g.edges
  pub into : Lists (λ e. e.target_id) g.adj_in g.edges

pub empty_graph-IsIndexed : (meta : Fields) → IsIndexed (empty_graph meta)
unfolding Dict.get_or Dict.get
empty_graph-IsIndexed meta = record { out = λ k. refl; into = λ k. refl }

pub put_node-IsIndexed :
    {g : CodeGraph} (k : String) (n : CodeNode) → IsIndexed g → IsIndexed (put_node g k n)
put_node-IsIndexed {g} k n h = record {
  out = λ j. get_or-ensure_key g.adj_out k j ∙ h.out j;
  into = λ j. get_or-ensure_key g.adj_in k j ∙ h.into j;
}

pub add_node-IsIndexed : {g : CodeGraph} (n : CodeNode) → IsIndexed g → IsIndexed (add_node g n)
unfolding add_node
add_node-IsIndexed {g} n h = record {
  out = λ j. get_or-ensure_key g.adj_out n.id j ∙ h.out j;
  into = λ j. get_or-ensure_key g.adj_in n.id j ∙ h.into j;
}

pub add_edge-IsIndexed : {g : CodeGraph} (e : CodeEdge) → IsIndexed g → IsIndexed (add_edge g e)
unfolding add_edge
add_edge-IsIndexed {g} e h = record {
  out = Lists-append_edge (λ x. x.source_id) g.adj_out g.edges e h.out;
  into = Lists-append_edge (λ x. x.target_id) g.adj_in g.edges e h.into;
}
