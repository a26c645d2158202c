-- ===== src/StateMachine/Analyze.antt =====
-- `StateMachineAnalyzer.analyze`.
use smart_bench.Prelude.{
  ℕ, String, Bool, true, false, not, ◌&&◌, Option, none, some, List, [], ◌∷◌, ◌++◌, ◌==◌, string_eq,
  filter, any, map, length, flat_map, sorted, str_leb, if◌then◌else◌,
}
use smart_bench.Prelude.Dict.{Dict}
use smart_bench.Prelude.Dict
use smart_bench.Ir.Values.{PyText}
use smart_bench.Ir.Operations.{SemanticOperation, OperationEdge, operation_order}
use smart_bench.ControlFlow.Graph.{ControlFlowGraph, from_ir, is_wanted}
use smart_bench.Icfg.Build.{build}
use smart_bench.StateMachine.Selector.{
  StateInvariant, StateScope, intraprocedural, interprocedural, StateInvariantViolation,
}
use smart_bench.StateMachine.Scope.{evaluate_scope}
use smart_bench.StateMachine.Cross.{no_tally, total, evaluate_interprocedural}

abbrev pub is_interprocedural : StateScope → Bool
is_interprocedural intraprocedural = false
is_interprocedural interprocedural = true

-- `by_scope.setdefault(operation.scope_id, []).append(operation)`
unfoldable pub group_by_scope :
    (SemanticOperation → Bool)
    → Dict String (List SemanticOperation)
    → List SemanticOperation
    → Dict String (List SemanticOperation)
group_by_scope kept d [] = d
group_by_scope kept d (o ∷ os) =
    group_by_scope kept
      (if kept o && not (o.scope_id == "")
        then Dict.insert d o.scope_id (Dict.get_or d o.scope_id [] ++ o ∷ [])
        else d)
      os

pub record StateAnalysisResult : Type 0 where
  pub violations : List StateInvariantViolation
  pub invariants_evaluated : ℕ
  pub scopes_evaluated : ℕ
  pub interprocedural_paths : ℕ
  pub interprocedural_unknowns : ℕ

abbrev pub by_key {κ} : {V : Type κ} → String × V → String × V → Bool
by_key a b = str_leb a.0 b.0

-- The two nested loops over scopes and invariants.
unfoldable pub scope_violations :
    PyText
    → ControlFlowGraph
    → List StateInvariant
    → Dict String (List SemanticOperation)
    → List StateInvariantViolation
scope_violations py cfg invariants scopes =
    flat_map
      (λ item.
        flat_map (evaluate_scope py cfg item.0 item.1)
          (filter (λ inv. not (is_interprocedural inv.scope)) invariants))
      (sorted by_key scopes)

unfoldable pub analyze :
    PyText
    → List SemanticOperation
    → List OperationEdge
    → List StateInvariant
    → List String
    → Option StateAnalysisResult
unfolding group_by_scope scope_violations
analyze py ops es invariants languages =
    let language_filter = map py.lower languages in
    let cfg = from_ir py.lower ops es language_filter in
    let by_scope =
      Dict.map_values (sorted operation_order)
        (group_by_scope (λ o. is_wanted (py.lower o.language) language_filter) [] ops) in
    let within = scope_violations py cfg invariants by_scope in
    let all_operations = sorted operation_order (flat_map (λ item. item.1) by_scope) in
    elim (if any (λ inv. is_interprocedural inv.scope) invariants
      then total (evaluate_interprocedural py cfg (build py false ops es) all_operations)
          (filter (λ inv. is_interprocedural inv.scope) invariants)
      else some no_tally) [
        | none ↦ none
        | some t ↦ some (record {
          violations = within ++ t.violations;
          invariants_evaluated = length invariants;
          scopes_evaluated = length by_scope;
          interprocedural_paths = t.paths_evaluated;
          interprocedural_unknowns = t.unknowns;
        })
      ]
