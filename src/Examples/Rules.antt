-- ===== src/Examples/Rules.antt =====
-- Witnesses for the theorems on rules: invariants, path queries, capabilities and facts.
use smart_bench.Prelude.{
  ◌≤◌, ◌≡◌, ◌↔◌, ◌⊎◌, refl, String, true, false, some, none, List, [], ◌∷◌, map, max, length,
  contains, string_eq, nat_eq, pair_eq, IsIn, here, there, sorted, arith,
}
use smart_bench.Prelude.Dict
use smart_bench.Ir.Operations.{SemanticOperation, EvidenceRef, OperationKind}
use smart_bench.ControlFlow.Graph.{control_flow_graph, index_operations, targets}
use smart_bench.ControlFlow.Reach.{reachable, Path⁺, reachable_iff}
use smart_bench.ControlFlow.Between.{Walk, dominates_between, branch_controls}
use smart_bench.Icfg.Build.{build}
use smart_bench.StateMachine.Selector.{matches, guard_matches, violation, StateInvariantViolation}
use smart_bench.StateMachine.Scope.{
  evaluate_scope, evaluate_scope_iff, Violates, unreported_guarded,
}
use smart_bench.StateMachine.Paths.{find, find_answers, InterproceduralStatePath, AllProven}
use smart_bench.Capabilities.Set.{
  CapabilitySet, CapabilityLevel, Capability, rank, full, partial, data_flow, control_flow,
  contract_status, assess, assess_status,
}
use smart_bench.Capabilities.Assess.{
  Frontends, set_of, assess_requirements, chosen_languages, assess_lowest,
}
use smart_bench.Evidence.Pack.{
  SemanticFact, from_facts, from_facts_evidence, no_repeat, ref_key, fact_refs, RefKey,
}
use smart_bench.Evidence.Facts.{violation_to_fact, violation_to_fact_evidence}
use smart_bench.Examples.Data.{
  plain_text, in_f, edges_f, event, guard, action, guard_first, of_kind, with_call, edges_call,
  place, apart,
}

leads : Path⁺ in_f edges_f "e" "a"
unfolding reachable control_flow_graph Dict.get Dict.insert index_operations Dict.get_or sorted
    targets
leads = (reachable_iff in_f edges_f "e" "a").0 refl

unreported_guarded_example :
    (o : SemanticOperation) × IsIn o in_f
    × (guard_matches plain_text guard_first o ≡ true)
    × ((ns : List String) → Walk in_f edges_f "e" "a" ns → contains o.id ns ≡ true)
unfolding evaluate_scope matches reachable Dict.get control_flow_graph Dict.insert targets
    Dict.get_or sorted dominates_between branch_controls index_operations
unreported_guarded_example =
    unreported_guarded plain_text in_f edges_f "f" in_f guard_first refl refl event action here refl
      (there (there here)) refl (apart "e" "a" refl) leads

evaluate_scope_iff_example :
    IsIn
      (violation guard_first "f" event action none [])
      (evaluate_scope plain_text (control_flow_graph in_f edges_f) "f" in_f guard_first)
    ↔ ((e : SemanticOperation) × (a : SemanticOperation) × Violates plain_text
          (control_flow_graph in_f edges_f)
          "f"
          in_f
          guard_first
          e
          a
        × (violation guard_first "f" event action none [] ≡ violation guard_first "f" e a none []))
evaluate_scope_iff_example =
    evaluate_scope_iff plain_text (control_flow_graph in_f edges_f) "f" in_f guard_first
      (violation guard_first "f" event action none [])

find_answers_example :
    (paths : List InterproceduralStatePath) × (find plain_text with_call edges_call
        (of_kind OperationKind.assign)
        (of_kind OperationKind.return)
        []
        4
        1
      ≡ some paths)
    × (length paths ≤ max 1 1)
    × AllProven (build plain_text false with_call edges_call) 4 paths
find_answers_example =
    find_answers plain_text with_call edges_call (of_kind OperationKind.assign)
      (of_kind OperationKind.return) [] 4 1 (omega arith)

abbrev python : CapabilitySet
python = record {
  language = "python";
  supported = control_flow ∷ [];
  partial = (data_flow, "calls are not followed") ∷ [];
}

abbrev contract : List (Capability × CapabilityLevel)
contract = (control_flow, full) ∷ (data_flow, partial) ∷ []

assess_status_example : (assess python contract).status ≡ contract_status python contract
assess_status_example = assess_status python contract

abbrev frontends : Frontends
frontends = record { languages = "python" ∷ []; capabilities = ("python", python) ∷ [] }

assess_lowest_example :
    ((l : String)
      → contains l ("python" ∷ []) ≡ true
      → rank (assess_requirements frontends contract []).status
        ≤ rank (contract_status (set_of frontends l) contract))
    × (((assess_requirements frontends contract []).status ≡ full)
        ⊎ ((l : String) × (contains l ("python" ∷ []) ≡ true)
            × ((assess_requirements frontends contract []).status
                ≡ contract_status (set_of frontends l) contract)))
unfolding chosen_languages sorted
assess_lowest_example = assess_lowest frontends contract [] "python" [] refl

abbrev fact : SemanticFact
fact = record {
  subject = "f";
  predicate = "calls";
  object = "h";
  evidence = place ∷ place ∷ [];
  attributes = [];
}

from_facts_evidence_example :
    (no_repeat (map ref_key (from_facts "q" (fact ∷ fact ∷ []) [] "").evidence) ≡ true)
    × ((k : RefKey)
        → contains k (map ref_key (from_facts "q" (fact ∷ fact ∷ []) [] "").evidence)
          ≡ contains k (map ref_key (fact_refs (fact ∷ fact ∷ []))))
from_facts_evidence_example = from_facts_evidence "q" (fact ∷ fact ∷ []) [] ""

abbrev unguarded : StateInvariantViolation
unguarded = violation guard_first "f" event action none (guard ∷ [])

violation_to_fact_evidence_example :
    (more : List EvidenceRef) × ((violation_to_fact unguarded).evidence ≡ place ∷ place ∷ more)
    × (length more ≤ 6)
violation_to_fact_evidence_example = violation_to_fact_evidence unguarded
