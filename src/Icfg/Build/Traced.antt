-- ===== src/Icfg/Build/Traced.antt =====
-- Which edges of the operations become the control edges of the graph that `_build` makes.
use smart_bench.Prelude.{
  String, ◌≡◌, ◌⊎◌, inl, inr, refl, Bool, true, false, ◌&&◌, ◌||◌, Option, none, some, List, [],
  ◌∷◌, ◌++◌, ◌==◌, Eq, string_eq, pair_eq, contains, contains-append, arith, IsIn, IsIn-left, here,
  there, ◌∙◌, subst, and_left, and_right, beq→eq, if◌then◌else◌, sym,
}
use smart_bench.Prelude.Dict.{Dict}
use smart_bench.Prelude.Dict
use smart_bench.Ir.Values.{PyText}
use smart_bench.Ir.Operations.{SemanticOperation, OperationEdge, edge_kind_eq}
use smart_bench.ControlFlow.Graph.{control_flow_edge_kinds}
use smart_bench.Icfg.Graph.{Icfg}
use smart_bench.Icfg.Build.Phases.{
  add_control_edge, add_entry, add_call_target, add_operation_edge, add_operation_edges,
  linked_graph,
}

-- A pair of ids that a control-flow edge inside one function joins.
pub record IsControlEdge (known : Dict String SemanticOperation) (es : List OperationEdge)
    (p : String × String) : Type 0 where
  pub edge : OperationEdge
  pub is_edge : IsIn edge es
  pub is_control : contains edge.kind control_flow_edge_kinds ≡ true
  pub source : SemanticOperation
  pub is_source : Dict.get known edge.source_id ≡ some source
  pub target : SemanticOperation
  pub is_target : Dict.get known edge.target_id ≡ some target
  pub one_scope : source.scope_id ≡ target.scope_id
  pub ends : p ≡ (source.id, target.id)

among-IsControlEdge :
    {known : Dict String SemanticOperation} {es fs : List OperationEdge} {p : String × String}
    → ((e : OperationEdge) → IsIn e es → IsIn e fs)
    → IsControlEdge known es p
    → IsControlEdge known fs p
among-IsControlEdge i h = record {
  edge = h.edge;
  is_edge = i h.edge h.is_edge;
  is_control = h.is_control;
  source = h.source;
  is_source = h.is_source;
  target = h.target;
  is_target = h.is_target;
  one_scope = h.one_scope;
  ends = h.ends;
}

-- The parts of a step that read control edges and operations only.
entry_same :
    (g : Icfg) (e : OperationEdge) (s t : SemanticOperation)
    → ((add_entry g e s t).raw_control_edges ≡ g.raw_control_edges)
      × ((add_entry g e s t).operations ≡ g.operations)
unfolding add_entry
entry_same g e s t = ground arith

call_same :
    (b : Bool) (g : Icfg) (e : OperationEdge) (s t : SemanticOperation)
    → ((add_call_target b g e s t).raw_control_edges ≡ g.raw_control_edges)
      × ((add_call_target b g e s t).operations ≡ g.operations)
unfolding add_call_target
call_same b g e s t = ground arith

control_operations :
    (g : Icfg) (e : OperationEdge) (s t : SemanticOperation)
    → (add_control_edge g e s t).operations ≡ g.operations
unfolding add_control_edge
control_operations g e s t = ground arith

contains_one : {A : Type 0} ⦃e : Eq A⦄ → (p q : A) → contains p (q ∷ []) ≡ true → p ≡ q
contains_one ⦃e = e⦄ p q h = ground (arith, e.same_iff p q)

or_cases : (a b : Bool) → a || b ≡ true → (a ≡ true) ⊎ (b ≡ true)
or_cases a b h = ground arith

control_raw :
    (g : Icfg) (e : OperationEdge) (s t : SemanticOperation) (b : Bool)
    → (contains e.kind control_flow_edge_kinds && s.scope_id == t.scope_id) ≡ b
    → (add_control_edge g e s t).raw_control_edges
      ≡ (if b then g.raw_control_edges ++ (s.id, t.id) ∷ [] else g.raw_control_edges)
unfolding add_control_edge
control_raw g e s t true c = rw (c) refl
control_raw g e s t false c = rw (c) refl

control_new :
    (g : Icfg) (e : OperationEdge) (s t : SemanticOperation) (p : String × String)
    → contains p (add_control_edge g e s t).raw_control_edges ≡ true
    → (contains p g.raw_control_edges ≡ true)
      ⊎ ((contains e.kind control_flow_edge_kinds ≡ true)
          × (s.scope_id ≡ t.scope_id)
          × (p ≡ (s.id, t.id)))
control_new g e s t p h =
    by_test (contains e.kind control_flow_edge_kinds && s.scope_id == t.scope_id) refl
  where
    by_member :
        contains e.kind control_flow_edge_kinds && s.scope_id == t.scope_id ≡ true
        → contains p g.raw_control_edges || contains p ((s.id, t.id) ∷ []) ≡ true
        → (contains p g.raw_control_edges ≡ true)
          ⊎ ((contains e.kind control_flow_edge_kinds ≡ true)
              × (s.scope_id ≡ t.scope_id)
              × (p ≡ (s.id, t.id)))
    by_member c m = elim (or_cases (contains p g.raw_control_edges) _ m) [
      | inl old ↦ inl old
      | inr new ↦ inr (
        and_left _ _ c,
        beq→eq s.scope_id t.scope_id (and_right (contains e.kind control_flow_edge_kinds) _ c),
        contains_one p (s.id, t.id) new,
      )
    ]

    by_test :
        (b : Bool)
        → (contains e.kind control_flow_edge_kinds && s.scope_id == t.scope_id) ≡ b
        → (contains p g.raw_control_edges ≡ true)
          ⊎ ((contains e.kind control_flow_edge_kinds ≡ true)
              × (s.scope_id ≡ t.scope_id)
              × (p ≡ (s.id, t.id)))
    by_test true c = by_member c (
        sym (contains-append p g.raw_control_edges ((s.id, t.id) ∷ []))
        ∙ subst (λ r. contains p r ≡ true) (control_raw g e s t true c) h)
    by_test false c = inl (subst (λ r. contains p r ≡ true) (control_raw g e s t false c) h)

-- One step keeps the operations and adds at most the edge's pair.
step_traced :
    (b : Bool) (g : Icfg) (e : OperationEdge) (p : String × String)
    → ((add_operation_edge b g e).operations ≡ g.operations)
      × (contains p (add_operation_edge b g e).raw_control_edges ≡ true
          → (contains p g.raw_control_edges ≡ true) ⊎ IsControlEdge g.operations (e ∷ []) p)
unfolding add_operation_edge
step_traced b g e p =
    by_ends (Dict.get g.operations e.source_id) (Dict.get g.operations e.target_id) refl refl
  where
    by_ends :
        (s t : Option SemanticOperation)
        → Dict.get g.operations e.source_id ≡ s
        → Dict.get g.operations e.target_id ≡ t
        → ((add_operation_edge b g e).operations ≡ g.operations)
          × (contains p (add_operation_edge b g e).raw_control_edges ≡ true
              → (contains p g.raw_control_edges ≡ true) ⊎ IsControlEdge g.operations (e ∷ []) p)
    by_ends none t h k = rw (add_operation_edge, h) (refl, λ m. inl m)
    by_ends (some s) none h k = rw (add_operation_edge, h, k) (refl, λ m. inl m)
    by_ends (some s) (some t) h k =
        let g1 = add_control_edge g e s t in
        let g2 = add_entry g1 e s t in
        let c = call_same b g2 e s t in
        let n = entry_same g1 e s t in
        rw (add_operation_edge, h, k)
          (
            c.1 ∙ (n.1 ∙ control_operations g e s t),
            λ m. elim (control_new g e s t p (subst (λ r. contains p r ≡ true) (c.0 ∙ n.0) m)) [
              | inl old ↦ inl old
              | inr new ↦ inr (record {
                edge = e;
                is_edge = here;
                is_control = new.0;
                source = s;
                is_source = h;
                target = t;
                is_target = k;
                one_scope = new.1;
                ends = new.2;
              })
            ],
          )

edges_traced :
    (b : Bool) (g : Icfg) (es : List OperationEdge) (p : String × String)
    → ((add_operation_edges b g es).operations ≡ g.operations)
      × (contains p (add_operation_edges b g es).raw_control_edges ≡ true
          → (contains p g.raw_control_edges ≡ true) ⊎ IsControlEdge g.operations es p)
unfolding add_operation_edges
edges_traced b g [] p = (refl, λ m. inl m)
edges_traced b g (e ∷ es) p =
    let (same, one) = step_traced b g e p in
    let (sames, more) = edges_traced b (add_operation_edge b g e) es p in
    (
      sames ∙ same,
      λ m. elim (more m) [
        | inl old ↦ elim (one old) [
          | inl older ↦ inl older
          | inr now ↦ inr (among-IsControlEdge (λ x i. IsIn-left es i) now)
        ]
        | inr later ↦ inr (
            among-IsControlEdge (λ x i. there i)
              (subst (λ known. IsControlEdge known es p) same later))
      ],
    )

-- The control edges of the graph before its arcs.
pub linked_traced :
    (py : PyText) (include_async : Bool) (ops : List SemanticOperation) (es : List OperationEdge)
    (p : String × String)
    → contains p (linked_graph py include_async ops es).raw_control_edges ≡ true
    → IsControlEdge (linked_graph py include_async ops es).operations es p
unfolding linked_graph
linked_traced py include_async ops es p m =
    let (same, traced) = edges_traced include_async _ es p in
    elim (traced m) [
      | inl none_yet ↦ absurd (cc)
      | inr h ↦ subst (λ known. IsControlEdge known es p) (sym same) h
    ]
