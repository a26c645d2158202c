-- ===== src/StateMachine/Scope/Evaluate.antt =====
-- `_evaluate_scope` and `_guard_proves_action`.
use smart_bench.Prelude.{
  String, Bool, not, ◌&&◌, ◌||◌, none, List, [], ◌∷◌, ◌==◌, string_eq, filter, flat_map,
  if◌then◌else◌,
}
use smart_bench.Ir.Values.{PyText}
use smart_bench.Ir.Operations.{SemanticOperation, OperationKind, kind_eq}
use smart_bench.ControlFlow.Graph.{ControlFlowGraph}
use smart_bench.ControlFlow.Reach.{reachable}
use smart_bench.ControlFlow.Between.{dominates_between, branch_controls}
use smart_bench.StateMachine.Selector.{
  matches, StateInvariant, InvariantKind, require_guard_before_action, forbid_action_after_event,
  require_exit_after_event, guard_matches, StateInvariantViolation, violation,
}

unfoldable pub guard_proves_action :
    ControlFlowGraph → SemanticOperation → SemanticOperation → SemanticOperation → Bool
guard_proves_action cfg event guard action =
    if guard.kind == OperationKind.branch
    then branch_controls cfg guard.id action.id
    else dominates_between cfg event.id guard.id action.id

-- The conditions on an operation of the list `guards`.
unfoldable pub is_guard :
    PyText
    → ControlFlowGraph
    → StateInvariant
    → SemanticOperation
    → SemanticOperation
    → SemanticOperation
    → Bool
unfolding guard_proves_action
is_guard py cfg inv event action o =
    not (o.id == event.id || o.id == action.id)
    && (guard_matches py inv o
        && (reachable cfg event.id o.id
            && (reachable cfg o.id action.id
                && (dominates_between cfg event.id o.id action.id
                    && guard_proves_action cfg event o action))))

abbrev pub is_later : ControlFlowGraph → SemanticOperation → SemanticOperation → Bool
is_later cfg event action = not (action.id == event.id) && reachable cfg event.id action.id

-- What the three cases append, the guards given.
abbrev pub verdict :
    InvariantKind → List SemanticOperation → StateInvariantViolation → List StateInvariantViolation
verdict require_guard_before_action [] v = v ∷ []
verdict require_guard_before_action (guard ∷ guards) v = []
verdict forbid_action_after_event guards v = v ∷ []
verdict require_exit_after_event guards v = v ∷ []

-- The body of the loop over the later actions.
unfoldable pub check_action :
    PyText
    → ControlFlowGraph
    → String
    → List SemanticOperation
    → StateInvariant
    → SemanticOperation
    → SemanticOperation
    → List StateInvariantViolation
unfolding is_guard
check_action py cfg scope_id operations inv event action =
    verdict inv.kind (filter (is_guard py cfg inv event action) operations)
      (violation inv scope_id event action none [])

unfoldable pub evaluate_scope :
    PyText
    → ControlFlowGraph
    → String
    → List SemanticOperation
    → StateInvariant
    → List StateInvariantViolation
unfolding check_action
evaluate_scope py cfg scope_id operations inv =
    let actions = filter (matches py inv.action) operations in
    flat_map
      (λ event.
        flat_map (check_action py cfg scope_id operations inv event)
          (filter (is_later cfg event) actions))
      (filter (matches py inv.event) operations)
