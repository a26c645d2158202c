-- ===== src/Code/Queries.antt =====
-- `get_callers` and `get_callees` of smartbench/graph/schema.py.
use smart_bench.Prelude.{
  String, ◌≡◌, ◌↔◌, ◌⊎◌, inl, inr, refl, sym, ap, subst, ◌∙◌, Bool, true, false, ◌||◌, ◌&&◌, Option,
  none, some, List, [], ◌∷◌, ◌==◌, string_eq, contains, contains-append, any, filter, IsIn, here,
  there, IsIn-head, Bool-cases, arith, beq→eq,
}
use smart_bench.Prelude.Dict
use smart_bench.Code.Schema.{CodeNode, CodeEdge, edge_type_eq, calls}
use smart_bench.Code.Graph.{
  CodeGraph, set_add, call_ends, found, known_nodes, get_callers, get_callees, in_edges, out_edges,
}
use smart_bench.Code.Indexed.{IsIndexed}

contains-set_add :
    (k x : String) (s : List String) → contains k (set_add s x) ≡ (k == x || contains k s)
unfolding set_add
contains-set_add k x s = ground (arith, contains-append k s (x ∷ []), string_eq.same_iff k x)

-- A `calls` edge with the given ends.
abbrev pub is_call_between :
    (CodeEdge → String) → (CodeEdge → String) → String → String → CodeEdge → Bool
is_call_between near far k j e = near e == k && (e.edge_type == calls && far e == j)

-- The collected ids are those at the far end of a call in the list.
contains-call_ends :
    (near far : CodeEdge → String) (k j : String) (es : List CodeEdge) (ids : List String)
    → contains j (call_ends far (filter (λ e. near e == k) es) ids)
      ≡ (contains j ids || any (is_call_between near far k j) es)
unfolding call_ends
contains-call_ends near far k j [] ids = ground arith
contains-call_ends near far k j (e ∷ es) ids = ground (
  arith,
  contains-call_ends near far k j es ids,
  contains-call_ends near far k j es (set_add ids (far e)),
  contains-set_add j (far e) ids,
  string_eq.same_iff j (far e),
  string_eq.same_iff (far e) j,
)

-- The nodes that are found under ids of a list.
IsIn-known_nodes :
    (g : CodeGraph) (ks : List String) (n : CodeNode)
    → IsIn n (known_nodes g ks)
    → (k : String) × (contains k ks ≡ true) × (Dict.get g.nodes k ≡ some n)
unfolding known_nodes
IsIn-known_nodes g [] n m = elim m [ ]
IsIn-known_nodes g (k ∷ ks) n m = by_found (Dict.get g.nodes k) refl m (IsIn-known_nodes g ks n)
  where
    later :
        (j : String) × (contains j ks ≡ true) × (Dict.get g.nodes j ≡ some n)
        → (j : String) × (contains j (k ∷ ks) ≡ true) × (Dict.get g.nodes j ≡ some n)
    later (j, c, e) = (j, ground arith, e)

    by_found :
        (o : Option CodeNode)
        → Dict.get g.nodes k ≡ o
        → IsIn n (found o (known_nodes g ks))
        → (IsIn n (known_nodes g ks)
            → (j : String) × (contains j ks ≡ true) × (Dict.get g.nodes j ≡ some n))
        → (j : String) × (contains j (k ∷ ks) ≡ true) × (Dict.get g.nodes j ≡ some n)
    by_found none e q rest = later (rest q)
    by_found (some v) e q rest = elim (IsIn-head q) [
      | inl same ↦ (k, ground (arith, string_eq.same_iff k k), e ∙ ap some (sym same))
      | inr q' ↦ later (rest q')
    ]

known_nodes-IsIn :
    (g : CodeGraph) (ks : List String) (n : CodeNode) (k : String)
    → contains k ks ≡ true
    → Dict.get g.nodes k ≡ some n
    → IsIn n (known_nodes g ks)
unfolding known_nodes
known_nodes-IsIn g [] n k c e = absurd (cc)
known_nodes-IsIn g (j ∷ ks) n k c e =
    by_found (Dict.get g.nodes j) refl (Bool-cases (k == j)) (λ d. known_nodes-IsIn g ks n k d e)
  where
    by_found :
        (o : Option CodeNode)
        → Dict.get g.nodes j ≡ o
        → (k == j ≡ true) ⊎ (k == j ≡ false)
        → (contains k ks ≡ true → IsIn n (known_nodes g ks))
        → IsIn n (found o (known_nodes g ks))
    by_found o p (inl hit) rest =
        subst (λ q. IsIn n (found q (known_nodes g ks)))
          (sym e ∙ ap (Dict.get g.nodes) (beq→eq k j hit) ∙ p) here
    by_found none p (inr miss) rest = rest (ground arith)
    by_found (some v) p (inr miss) rest = there (rest (ground arith))

-- In a graph whose tables list its edges, `get_callees` returns exactly the nodes found under the target
-- of a `calls` edge whose source is the given id, and `get_callers` those under the source of one whose
-- target it is.
pub calls_iff :
    (g : CodeGraph) (k : String) (n : CodeNode)
    → IsIndexed g
    → (IsIn n (get_callees g k) ↔ (
        (j : String) × (any (is_call_between (λ e. e.source_id) (λ e. e.target_id) k j) g.edges
          ≡ true)
        × (Dict.get g.nodes j ≡ some n)))
      × (IsIn n (get_callers g k) ↔ (
          (j : String) × (any (is_call_between (λ e. e.target_id) (λ e. e.source_id) k j) g.edges
            ≡ true)
          × (Dict.get g.nodes j ≡ some n)))
unfolding get_callees get_callers
calls_iff g k n i = (
  by_ends (λ e. e.source_id) (λ e. e.target_id) (out_edges g k) (i.out k),
  by_ends (λ e. e.target_id) (λ e. e.source_id) (in_edges g k) (i.into k),
)
  where
    by_ends :
        (near far : CodeEdge → String) (es : List CodeEdge)
        → es ≡ filter (λ e. near e == k) g.edges
        → IsIn n (known_nodes g (call_ends far es [])) ↔ (
            (j : String) × (any (is_call_between near far k j) g.edges ≡ true)
            × (Dict.get g.nodes j ≡ some n))
    by_ends near far es l = (
      λ m.
          let (j, c, e) = IsIn-known_nodes g (call_ends far es []) n m in
          (
            j,
            sym (contains-call_ends near far k j g.edges [])
                ∙ subst (λ fs. contains j (call_ends far fs []) ≡ true) l c,
            e,
          ),
      λ (j, c, e).
          known_nodes-IsIn g (call_ends far es []) n j
            (subst (λ fs. contains j (call_ends far fs []) ≡ true) (sym l)
              (contains-call_ends near far k j g.edges [] ∙ c))
            e,
    )
