-- ===== src/StateMachine/Scope/Correct.antt =====
-- What `_evaluate_scope` reports.
use smart_bench.Prelude.{
  String, ◌≡◌, ◌≢◌, ◌↔◌, ◌⊎◌, inl, inr, refl, true, none, List, [], ◌∷◌, string_eq, contains,
  filter, filter_empty, filter_cons, IsIn-head, flat_map, IsIn, here, IsIn-filter, IsIn-filtered,
  IsIn-flat_map, IsIn-flat_mapped, arith, sym, ap, ap₂, subst,
}
use smart_bench.Prelude.Dict
use smart_bench.Ir.Values.{PyText}
use smart_bench.Ir.Operations.{SemanticOperation, OperationEdge}
use smart_bench.ControlFlow.Graph.{
  ControlFlowGraph, control_flow_graph, index_operations, same_scope,
}
use smart_bench.ControlFlow.Linked.{operations_lem}
use smart_bench.ControlFlow.Reach.{reachable, Path⁺, reachable_iff}
use smart_bench.ControlFlow.Between.{Walk, dominates_between_iff}
use smart_bench.StateMachine.Selector.{
  matches, StateInvariant, InvariantKind, require_guard_before_action, forbid_action_after_event,
  require_exit_after_event, guard_matches, StateInvariantViolation, violation,
}
use smart_bench.StateMachine.Scope.Evaluate.{
  is_guard, is_later, verdict, check_action, evaluate_scope,
}

module _ (py : PyText) (cfg : ControlFlowGraph) (scope_id : String)
    (operations : List SemanticOperation) (inv : StateInvariant) where
  -- The pairs that break the invariant: an event and a later action that both occur in the function
  -- and, where a guard is required, no operation of the function that counts as one.
  pub record Violates (event action : SemanticOperation) : Type 0 where
    pub event_in : IsIn event operations
    pub event_matches : matches py inv.event event ≡ true
    pub action_in : IsIn action operations
    pub action_matches : matches py inv.action action ≡ true
    pub later : is_later cfg event action ≡ true
    pub unguarded :
        inv.kind ≡ require_guard_before_action
        → (o : SemanticOperation) → IsIn o operations
        → is_guard py cfg inv event action o ≢ true

  abbrev Unguarded : SemanticOperation → SemanticOperation → Type 0
  Unguarded event action =
      inv.kind ≡ require_guard_before_action
      → (o : SemanticOperation) → IsIn o operations
      → is_guard py cfg inv event action o ≢ true

  -- One violation or none, after the filter has run.
  check_action_none :
      (event action : SemanticOperation) (g : SemanticOperation) (gs : List SemanticOperation)
      → inv.kind ≡ require_guard_before_action
      → filter (is_guard py cfg inv event action) operations ≡ g ∷ gs
      → check_action py cfg scope_id operations inv event action ≡ []
  unfolding check_action
  check_action_none event action g gs k e =
      ap₂ (λ x y. verdict x y (violation inv scope_id event action none [])) k e

  check_action_one :
      (event action : SemanticOperation)
      → (inv.kind ≡ require_guard_before_action
          → filter (is_guard py cfg inv event action) operations ≡ [])
      → check_action py cfg scope_id operations inv event action
        ≡ violation inv scope_id event action none [] ∷ []
  unfolding check_action
  check_action_one event action h =
      by_kind inv.kind (filter (is_guard py cfg inv event action) operations) h
        (violation inv scope_id event action none [])
    where
      by_kind :
          (k : InvariantKind) (gs : List SemanticOperation)
          → (k ≡ require_guard_before_action → gs ≡ [])
          → (v : StateInvariantViolation) → verdict k gs v ≡ v ∷ []
      by_kind require_guard_before_action gs e v =
          ap (λ x. verdict require_guard_before_action x v) (e refl)
      by_kind forbid_action_after_event gs e v = refl
      by_kind require_exit_after_event gs e v = refl

  kind-cases :
      (k : InvariantKind) → (k ≡ require_guard_before_action) ⊎ (k ≢ require_guard_before_action)
  kind-cases require_guard_before_action = inl refl
  kind-cases forbid_action_after_event = inr (ground arith)
  kind-cases require_exit_after_event = inr (ground arith)

  check_action_sound :
      (event action : SemanticOperation) (v : StateInvariantViolation)
      → IsIn v (check_action py cfg scope_id operations inv event action)
      → (v ≡ violation inv scope_id event action none []) × Unguarded event action
  check_action_sound event action v m = elim (kind-cases inv.kind) [
    | inl k ↦ by_guards k (filter (is_guard py cfg inv event action) operations) refl
    | inr n ↦ (only (λ k. absurd (n k)), λ k. absurd (n k))
  ]
    where
      only :
          (inv.kind ≡ require_guard_before_action
            → filter (is_guard py cfg inv event action) operations ≡ [])
          → v ≡ violation inv scope_id event action none []
      only h = elim (IsIn-head (subst (IsIn v) (check_action_one event action h) m)) [
        | inl p ↦ p
        | inr n ↦ absurd (elim n [ ])
      ]

      by_guards :
          inv.kind ≡ require_guard_before_action
          → (gs : List SemanticOperation)
          → filter (is_guard py cfg inv event action) operations ≡ gs
          → (v ≡ violation inv scope_id event action none []) × Unguarded event action
      by_guards k [] e =
          (only (λ i. e), λ i. filter_empty (is_guard py cfg inv event action) operations e)
      by_guards k (g ∷ gs) e =
          absurd (elim (subst (IsIn v) (check_action_none event action g gs k e) m) [ ])

  check_action_complete :
      (event action : SemanticOperation)
      → Unguarded event action
      → IsIn
          (violation inv scope_id event action none [])
          (check_action py cfg scope_id operations inv event action)
  check_action_complete event action h =
      subst (IsIn (violation inv scope_id event action none []))
        (sym (
          check_action_one event action
            (λ k. all_fail (h k) (filter (is_guard py cfg inv event action) operations) refl)))
        here
    where
      all_fail :
          ((o : SemanticOperation) → IsIn o operations → is_guard py cfg inv event action o ≢ true)
          → (gs : List SemanticOperation)
          → filter (is_guard py cfg inv event action) operations ≡ gs
          → gs ≡ []
      all_fail f [] e = refl
      all_fail f (g ∷ gs) e =
          let (m, t) = filter_cons (is_guard py cfg inv event action) operations e in
          absurd (f g m t)

  -- A violation is reported exactly for the pairs that break the invariant.
  pub evaluate_scope_iff :
      (v : StateInvariantViolation)
      → IsIn v (evaluate_scope py cfg scope_id operations inv) ↔ (
          (event : SemanticOperation) × (action : SemanticOperation) × Violates event action
          × (v ≡ violation inv scope_id event action none []))
  unfolding evaluate_scope
  evaluate_scope_iff v = (forward, backward)
    where
      forward :
          IsIn v (evaluate_scope py cfg scope_id operations inv)
          → (event : SemanticOperation) × (action : SemanticOperation) × Violates event action
            × (v ≡ violation inv scope_id event action none [])
      forward m =
          let (event, i, j) =
            IsIn-flat_map
              (λ event.
                flat_map (check_action py cfg scope_id operations inv event)
                  (filter (is_later cfg event) (filter (matches py inv.action) operations)))
              (filter (matches py inv.event) operations) m in
          let (action, k, l) =
            IsIn-flat_map (check_action py cfg scope_id operations inv event)
              (filter (is_later cfg event) (filter (matches py inv.action) operations)) j in
          let (e_in, e_match) = IsIn-filter (matches py inv.event) operations i in
          let (a_filtered, a_later) =
            IsIn-filter (is_later cfg event) (filter (matches py inv.action) operations) k in
          let (a_in, a_match) = IsIn-filter (matches py inv.action) operations a_filtered in
          let (p, u) = check_action_sound event action v l in
          (
            event,
            action,
            record {
              event_in = e_in;
              event_matches = e_match;
              action_in = a_in;
              action_matches = a_match;
              later = a_later;
              unguarded = u;
            },
            p,
          )

      backward :
          (event : SemanticOperation) × (action : SemanticOperation) × Violates event action
            × (v ≡ violation inv scope_id event action none [])
          → IsIn v (evaluate_scope py cfg scope_id operations inv)
      backward (event, action, w, p) =
          subst (λ x. IsIn x (evaluate_scope py cfg scope_id operations inv)) (sym p)
            (IsIn-flat_mapped _ (IsIn-filtered (matches py inv.event) w.event_in w.event_matches) (
              IsIn-flat_mapped (check_action py cfg scope_id operations inv event)
                (IsIn-filtered (is_later cfg event)
                  (IsIn-filtered (matches py inv.action) w.action_in w.action_matches) w.later)
                (check_action_complete event action w.unguarded)))

module _ (py : PyText) (ops : List SemanticOperation) (es : List OperationEdge) where
  -- A proven query is about two operations of one function.
  reachable_scope :
      (a b : String)
      → reachable (control_flow_graph ops es) a b ≡ true
      → same_scope (Dict.get (index_operations [] ops) a) (Dict.get (index_operations [] ops) b)
        ≡ true
  unfolding reachable
  reachable_scope a b h = ground (
    arith,
    ap (λ d. Dict.get d a) (operations_lem ops es),
    ap (λ d. Dict.get d b) (operations_lem ops es),
  )

  guard_on_walks :
      (inv : StateInvariant) (event action o : SemanticOperation)
      → is_guard py (control_flow_graph ops es) inv event action o ≡ true
      → (guard_matches py inv o ≡ true)
        × ((ns : List String) → Walk ops es event.id action.id ns → contains o.id ns ≡ true)
  unfolding is_guard
  guard_on_walks inv event action o h = (
    ground arith,
    λ ns w. ground (
      arith,
      (dominates_between_iff ops es event.id o.id action.id
            (reachable_scope event.id o.id (ground arith))
            (reachable_scope o.id action.id (ground arith))
            (λ e. absurd (ground (arith, string_eq.same_iff o.id action.id)))).0
          (ground arith) ns w,
      string_eq.same_iff o.id event.id,
    ),
  )

  module _ (scope_id : String) (operations : List SemanticOperation) (inv : StateInvariant) where
    -- Where a required guard gives no violation, every later action of an event has one operation of the
    -- function that the guard selects and that every path from the event to the action visits.
    pub unreported_guarded :
        inv.kind ≡ require_guard_before_action
        → evaluate_scope py (control_flow_graph ops es) scope_id operations inv ≡ []
        → (event action : SemanticOperation) → IsIn event operations
        → matches py inv.event event ≡ true
        → IsIn action operations
        → matches py inv.action action ≡ true
        → event.id ≢ action.id
        → Path⁺ ops es event.id action.id
        → (o : SemanticOperation) × IsIn o operations
          × (guard_matches py inv o ≡ true)
          × ((ns : List String) → Walk ops es event.id action.id ns → contains o.id ns ≡ true)
    unreported_guarded k none_found event action i ei j aj ne path =
        by_guards (filter (is_guard py (control_flow_graph ops es) inv event action) operations)
          refl
      where
        later : is_later (control_flow_graph ops es) event action ≡ true
        later = ground (
          arith,
          (reachable_iff ops es event.id action.id).1 path,
          string_eq.same_iff action.id event.id,
        )

        reported :
            filter (is_guard py (control_flow_graph ops es) inv event action) operations ≡ []
            → IsIn
                (violation inv scope_id event action none [])
                (evaluate_scope py (control_flow_graph ops es) scope_id operations inv)
        reported e =
            (evaluate_scope_iff py (control_flow_graph ops es) scope_id operations inv
                (violation inv scope_id event action none [])).1
              (
                event,
                action,
                record {
                  event_in = i;
                  event_matches = ei;
                  action_in = j;
                  action_matches = aj;
                  later = later;
                  unguarded = λ h.
                      filter_empty (is_guard py (control_flow_graph ops es) inv event action)
                        operations e;
                },
                refl,
              )

        by_guards :
            (gs : List SemanticOperation)
            → filter (is_guard py (control_flow_graph ops es) inv event action) operations ≡ gs
            → (o : SemanticOperation) × IsIn o operations
              × (guard_matches py inv o ≡ true)
              × ((ns : List String) → Walk ops es event.id action.id ns → contains o.id ns ≡ true)
        by_guards [] e = absurd (
            elim (subst (IsIn (violation inv scope_id event action none [])) none_found
              (reported e)) [ ])
        by_guards (g ∷ gs) e =
            let (m, t) =
              filter_cons (is_guard py (control_flow_graph ops es) inv event action) operations e in
            let p = guard_on_walks inv event action g t in (g, m, p.0, p.1)
