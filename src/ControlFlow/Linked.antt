-- ===== src/ControlFlow/Linked.antt =====
-- What the constructed graph holds, in terms of the operations and edges it was built from.
use smart_bench.Prelude.{
  String, ◌≡◌, refl, Bool, true, false, ◌&&◌, Option, none, some, List, [], ◌∷◌, ◌++◌, map, arith,
  ◌==◌, string_eq, contains, filter, if◌then◌else◌, sorted, contains-map-sorted, map-append,
  append_assoc, append-nil, ◌∙◌, sym, ap, beq→eq, Bool-cases, inl, inr,
}
use mathlib.Core.Path.{subst₂}
use smart_bench.Prelude.Dict.{Dict}
use smart_bench.Prelude.Dict
use mathlib.Core.Option
use smart_bench.Ir.Operations.{SemanticOperation, OperationEdge, edge_kind_eq}
use smart_bench.ControlFlow.Graph.{
  ControlFlowArc, ControlFlowGraph, control_flow_edge_kinds, index_operations, same_scope, arc_of,
  add_edge, add_edges, arc_order, sort_arcs, control_flow_graph, targets, sources,
}

-- An edge that stays inside one function and carries control flow.
unfoldable pub is_arc : List SemanticOperation → OperationEdge → Bool
is_arc ops e =
    contains e.kind control_flow_edge_kinds
    && same_scope (Dict.get (index_operations [] ops) e.source_id)
        (Dict.get (index_operations [] ops) e.target_id)

-- The operations that such edges lead to from one operation, and that lead to it.
unfoldable pub linked : List SemanticOperation → List OperationEdge → String → List String
linked ops es a = map (λ e. e.target_id) (filter (λ e. is_arc ops e && e.source_id == a) es)

unfoldable pub linked_back : List SemanticOperation → List OperationEdge → String → List String
linked_back ops es b = map (λ e. e.source_id) (filter (λ e. is_arc ops e && e.target_id == b) es)

abbrev arc_test : ControlFlowGraph → OperationEdge → Bool
arc_test g e =
    contains e.kind control_flow_edge_kinds
    && same_scope (Dict.get g.operations e.source_id) (Dict.get g.operations e.target_id)

abbrev target_of : ControlFlowArc → String
target_of x = x.target_id

abbrev source_of : ControlFlowArc → String
source_of x = x.source_id

abbrev one_if {ℓ} : {A : Type ℓ} → Bool → A → List A
one_if true a = a ∷ []
one_if false a = []

operations-add_edge :
    (g : ControlFlowGraph) (e : OperationEdge) → (add_edge g e).operations ≡ g.operations
unfolding add_edge
operations-add_edge g e = ground arith

succs-add_edge :
    (g : ControlFlowGraph) (e : OperationEdge) (a : String)
    → Dict.get_or (add_edge g e).succs a []
      ≡ Dict.get_or g.succs a [] ++ one_if (arc_test g e && e.source_id == a) (arc_of e)
unfolding add_edge
succs-add_edge g e a = ground (
  arith,
  Dict.get_or-insert g.succs e.source_id a (Dict.get_or g.succs e.source_id [] ++ arc_of e ∷ []) [],
  beq→eq e.source_id a,
  append-nil (Dict.get_or g.succs a []),
)

preds-add_edge :
    (g : ControlFlowGraph) (e : OperationEdge) (b : String)
    → Dict.get_or (add_edge g e).preds b []
      ≡ Dict.get_or g.preds b [] ++ one_if (arc_test g e && e.target_id == b) (arc_of e)
unfolding add_edge
preds-add_edge g e b = ground (
  arith,
  Dict.get_or-insert g.preds e.target_id b (Dict.get_or g.preds e.target_id [] ++ arc_of e ∷ []) [],
  beq→eq e.target_id b,
  append-nil (Dict.get_or g.preds b []),
)

operations-add_edges :
    (g : ControlFlowGraph) (es : List OperationEdge) → (add_edges g es).operations ≡ g.operations
unfolding add_edges
operations-add_edges g [] = refl
operations-add_edges g (e ∷ es) = operations-add_edges (add_edge g e) es ∙ operations-add_edge g e

map-one_if :
    {A B : Type 0} (f : A → B) (xs : List A) (t : Bool) (a : A)
    → map f (xs ++ one_if t a) ≡ map f xs ++ one_if t (f a)
map-one_if f xs true a = map-append f xs (a ∷ [])
map-one_if f xs false a = map-append f xs []

join_one_if :
    {A B : Type 0} (f : A → B) (xs : List B) (t : Bool) (a : A) (ys : List A)
    → (xs ++ one_if t (f a)) ++ map f ys ≡ xs ++ map f (if t then a ∷ ys else ys)
join_one_if f xs true a ys = append_assoc xs (f a ∷ []) (map f ys)
join_one_if f xs false a ys = append_assoc xs [] (map f ys)

abbrev edge_target : OperationEdge → String
edge_target e = e.target_id

abbrev edge_source : OperationEdge → String
edge_source e = e.source_id

module _ (ops : List SemanticOperation) where
  succs-add_edges :
      (g : ControlFlowGraph) (es : List OperationEdge) (a : String)
      → g.operations ≡ index_operations [] ops
      → map target_of (Dict.get_or (add_edges g es).succs a [])
        ≡ map target_of (Dict.get_or g.succs a []) ++ linked ops es a
  unfolding add_edges linked is_arc
  succs-add_edges g [] a h = sym (append-nil (map target_of (Dict.get_or g.succs a [])))
  succs-add_edges g (e ∷ es) a h =
      rw
        (
          succs-add_edges (add_edge g e) es a (operations-add_edge g e ∙ h),
          succs-add_edge g e a,
          map-one_if target_of,
          h,
        )
        (join_one_if edge_target _ _ e _)

  preds-add_edges :
      (g : ControlFlowGraph) (es : List OperationEdge) (b : String)
      → g.operations ≡ index_operations [] ops
      → map source_of (Dict.get_or (add_edges g es).preds b [])
        ≡ map source_of (Dict.get_or g.preds b []) ++ linked_back ops es b
  unfolding add_edges linked_back is_arc
  preds-add_edges g [] b h = sym (append-nil (map source_of (Dict.get_or g.preds b [])))
  preds-add_edges g (e ∷ es) b h =
      rw
        (
          preds-add_edges (add_edge g e) es b (operations-add_edge g e ∙ h),
          preds-add_edge g e b,
          map-one_if source_of,
          h,
        )
        (join_one_if edge_source _ _ e _)

  get_or-sort :
      (f : ControlFlowArc → String) (d : Dict String (List ControlFlowArc)) (a b : String)
      → contains b (map f (Dict.get_or (Dict.map_values (sorted arc_order) d) a []))
        ≡ contains b (map f (Dict.get_or d a []))
  unfolding Dict.get_or
  get_or-sort f d a b = rw Dict.get-map_values (by_case (Dict.get d a))
    where
      by_case :
          (o : Option (List ControlFlowArc))
          → contains b (map f (Dict.or_default (Option.map (sorted arc_order) o) []))
            ≡ contains b (map f (Dict.or_default o []))
      by_case none = refl
      by_case (some xs) = contains-map-sorted arc_order f b xs

  -- The successors of an operation are the ends of the arcs that start there.
  pub contains-targets :
      (es : List OperationEdge) (a b : String)
      → contains b (targets (control_flow_graph ops es) a) ≡ contains b (linked ops es a)
  unfolding control_flow_graph targets sort_arcs Dict.get_or Dict.get
  contains-targets es a b =
      get_or-sort target_of _ a b
      ∙ ap (contains b) (
          succs-add_edges (record { operations = index_operations [] ops; succs = []; preds = [] })
            es a refl)

  pub contains-sources :
      (es : List OperationEdge) (a b : String)
      → contains a (sources (control_flow_graph ops es) b) ≡ contains a (linked_back ops es b)
  unfolding control_flow_graph sources sort_arcs Dict.get_or Dict.get
  contains-sources es a b =
      get_or-sort source_of _ b a
      ∙ ap (contains a) (
          preds-add_edges (record { operations = index_operations [] ops; succs = []; preds = [] })
            es b refl)

  pub operations_lem :
      (es : List OperationEdge) → (control_flow_graph ops es).operations ≡ index_operations [] ops
  unfolding control_flow_graph sort_arcs
  operations_lem es = operations-add_edges _ es

  -- Both directions list the same arcs.
  pub linked-linked_back :
      (es : List OperationEdge) (a b : String)
      → contains b (linked ops es a) ≡ contains a (linked_back ops es b)
  unfolding linked linked_back
  linked-linked_back [] a b = refl
  linked-linked_back (e ∷ es) a b = ground (
    arith,
    linked-linked_back es a b,
    string_eq.same_iff e.source_id a,
    string_eq.same_iff e.target_id b,
    string_eq.same_iff a e.source_id,
    string_eq.same_iff b e.target_id,
  )

  -- Linked operations are operations of one function.
  pub linked_scope :
      (es : List OperationEdge) (a b : String)
      → contains b (linked ops es a) ≡ true
      → same_scope (Dict.get (index_operations [] ops) a) (Dict.get (index_operations [] ops) b)
        ≡ true
  unfolding linked is_arc
  linked_scope [] a b h = absurd (cc)
  linked_scope (e ∷ es) a b h =
      elim (Bool-cases (is_arc ops e && (e.source_id == a && b == e.target_id))) [
        | inl hit ↦
            subst₂
              (λ x y.
                same_scope (Dict.get (index_operations [] ops) x)
                  (Dict.get (index_operations [] ops) y)
                ≡ true)
              (beq→eq e.source_id a (ground arith)) (sym (beq→eq b e.target_id (ground arith)))
              (ground arith)
        | inr miss ↦ linked_scope es a b (ground arith)
      ]
