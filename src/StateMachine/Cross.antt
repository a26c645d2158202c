-- ===== src/StateMachine/Cross.antt =====
-- `_evaluate_interprocedural` and `_cross_scope_guard_proves_action`. A query of the graph that raises
-- ValueError makes the whole evaluation raise it: `none`.
use smart_bench.Prelude.{
  ℕ, ◌+◌, String, Bool, false, not, ◌&&◌, ◌||◌, Option, none, some, List, [], ◌∷◌, ◌++◌, ◌==◌,
  string_eq, filter, contains, any, if◌then◌else◌,
}
use smart_bench.Prelude.Dict.{Dict}
use smart_bench.Prelude.Dict
use smart_bench.Ir.Values.{PyText, text_or_empty}
use smart_bench.Ir.Operations.{SemanticOperation, kind_eq}
use smart_bench.ControlFlow.Graph.{ControlFlowGraph, index_operations}
use smart_bench.ControlFlow.Reach.{reachable}
use smart_bench.ControlFlow.Between.{branch_controls}
use smart_bench.ControlFlow.Dominators.{dominates}
use smart_bench.Icfg.Graph.{Icfg}
use smart_bench.Icfg.Path.{find_path, value_error, no_path, path, fuel_ran_out}
use smart_bench.StateMachine.Selector.{
  matches, StateInvariant, InvariantKind, require_guard_before_action, forbid_action_after_event,
  require_exit_after_event, guard_matches, StateInvariantViolation, violation,
}

-- `str(action.attributes.get("host_operation", "")) or action.id`
unfoldable pub action_point : PyText → SemanticOperation → String
action_point py action =
    let host = text_or_empty py (Dict.get action.attributes "host_operation") in
    if host == "" then action.id else host

unfoldable pub cross_scope_guard_proves_action :
    PyText → ControlFlowGraph → SemanticOperation → SemanticOperation → Bool
unfolding action_point
cross_scope_guard_proves_action py cfg guard action =
    if not (guard.scope_id == action.scope_id)
    then false
    else reachable cfg guard.id (action_point py action)
      && (dominates cfg guard.id (action_point py action)
          && branch_controls cfg guard.id (action_point py action))

-- The operations of a dictionary in the order of the path.
unfoldable pub along_path : Dict String SemanticOperation → List String → List SemanticOperation
along_path d [] = []
along_path d (id ∷ ids) = elim (Dict.get d id) [
  | none ↦ along_path d ids
  | some o ↦ o ∷ along_path d ids
]

pub record Tally : Type 0 where
  pub violations : List StateInvariantViolation
  pub paths_evaluated : ℕ
  pub unknowns : ℕ

abbrev pub no_tally : Tally
no_tally = record { violations = []; paths_evaluated = 0; unknowns = 0 }

unfoldable pub is_path_guard :
    PyText → StateInvariant → SemanticOperation → SemanticOperation → SemanticOperation → Bool
is_path_guard py inv event action o =
    not (o.id == event.id || o.id == action.id) && guard_matches py inv o

-- What a pair with a path adds.
unfoldable pub path_verdict :
    PyText
    → ControlFlowGraph
    → InvariantKind
    → List SemanticOperation
    → SemanticOperation
    → StateInvariantViolation
    → Tally
unfolding cross_scope_guard_proves_action
path_verdict py cfg require_guard_before_action [] action v = record {
  violations = v ∷ [];
  paths_evaluated = 1;
  unknowns = 0;
}
path_verdict py cfg require_guard_before_action (guard ∷ guards) action v = record {
  violations = [];
  paths_evaluated = 1;
  unknowns =
      if any (λ g. cross_scope_guard_proves_action py cfg g action) (guard ∷ guards) then 0 else 1;
}
path_verdict py cfg forbid_action_after_event guards action v = record {
  violations = v ∷ [];
  paths_evaluated = 1;
  unknowns = 0;
}
path_verdict py cfg require_exit_after_event guards action v = record {
  violations = v ∷ [];
  paths_evaluated = 1;
  unknowns = 0;
}

-- The default of `max_steps`.
abbrev pub default_max_steps : ℕ
default_max_steps = 10_000

-- The body of the loop over the actions.
unfoldable pub check_pair :
    PyText
    → ControlFlowGraph
    → Icfg
    → List SemanticOperation
    → StateInvariant
    → SemanticOperation
    → SemanticOperation
    → Option Tally
unfolding along_path is_path_guard path_verdict
check_pair py cfg g operations inv event action =
    if event.scope_id == action.scope_id || event.id == action.id
    then some no_tally
    else elim (find_path g event.id action.id inv.max_call_depth default_max_steps) [
      | value_error ↦ none
      | fuel_ran_out ↦ none
      | no_path ↦ some no_tally
      | path p ↦
          let on_path =
            along_path
              (index_operations [] (filter (λ o. contains o.id p.operation_ids) operations))
              p.operation_ids in
          some (
            path_verdict py cfg inv.kind (filter (is_path_guard py inv event action) on_path) action
              (violation inv event.scope_id event action (some p) on_path))
    ]

abbrev pub add_tallies : Tally → Tally → Tally
add_tallies s t = record {
  violations = s.violations ++ t.violations;
  paths_evaluated = s.paths_evaluated + t.paths_evaluated;
  unknowns = s.unknowns + t.unknowns;
}

abbrev pub add_results : Option Tally → Option Tally → Option Tally
add_results none t = none
add_results (some s) none = none
add_results (some s) (some t) = some (add_tallies s t)

unfoldable pub total : {A : Type 0} → (A → Option Tally) → List A → Option Tally
total f [] = some no_tally
total f (x ∷ xs) = add_results (f x) (total f xs)

unfoldable pub evaluate_interprocedural :
    PyText → ControlFlowGraph → Icfg → List SemanticOperation → StateInvariant → Option Tally
unfolding check_pair total
evaluate_interprocedural py cfg g operations inv =
    total
      (λ event.
        total (check_pair py cfg g operations inv event)
          (filter (matches py inv.action) operations))
      (filter (matches py inv.event) operations)
