-- ===== src/Examples/Scopes.antt =====
-- Witnesses for the theorems on scopes, feedback and trials.
use smart_bench.Prelude.{
  ℕ, ◌+◌, ◌≤◌, ◌≡◌, ◌↔◌, refl, String, true, none, some, List, [], ◌∷◌, contains, string_eq,
  pair_eq,
}
use Prim.Native.Nat.{Ordering}
use smart_bench.Prelude.Dict
use smart_bench.Prelude.Counter.{occurrences, tally}
use smart_bench.Ir.Values.{Fields, str, int, end, field}
use smart_bench.Flow.Scope.{ScopeManager, empty_manager, enter_scope, module_scope, function_scope}
use smart_bench.Flow.Frames.{IsLinked, bottom}
use smart_bench.Flow.Refines.{IsFrameStack, scope_manager-IsFrameStack}
use smart_bench.Feedback.Events.{
  FeedbackEvent, Prior, prior, build_priors, actionable_label, add_events, add_event, event_key,
}
use smart_bench.Feedback.Priors.{key_count, label_count, build_priors-counts}
use smart_bench.Feedback.Rank.{FloatText, rank_findings}
use smart_bench.Feedback.Ranked.{IsRanking, rank_findings-IsRanking}
use smart_bench.Feedback.Trials.{
  TrialRecord, signatures, summarize_trials, Agree, summarize_trials_lem,
}
use smart_bench.Examples.Merges.{shard_text}

abbrev entered_module : ScopeManager ℕ
entered_module = enter_scope empty_manager module_scope none

abbrev entered_function : ScopeManager ℕ
entered_function = enter_scope entered_module function_scope (some "f")

entered-IsLinked : IsLinked entered_function
entered-IsLinked =
    let first = (scope_manager-IsFrameStack empty_manager bottom).enters module_scope none in
    ((scope_manager-IsFrameStack entered_module first.1).enters function_scope (some "f")).1

scope_manager-IsFrameStack_example : IsFrameStack entered_function
scope_manager-IsFrameStack_example = scope_manager-IsFrameStack entered_function entered-IsLinked

abbrev event : String → FeedbackEvent
event label = record { event_id = label; label = label; rule_id = "r"; language = "" }

abbrev events : List FeedbackEvent
events = event "actionable" ∷ event "intentional" ∷ event "actionable" ∷ []

abbrev found : Prior
found = prior ("r", "*") (("actionable", 2) ∷ ("intentional", 1) ∷ [])

events_prior : Dict.get (build_priors events) ("r", "*") ≡ some found
unfolding build_priors add_events add_event event_key tally Dict.get Dict.get_or Dict.insert
events_prior = refl

build_priors-counts_example :
    (found.support ≡ key_count ("r", "*") events)
    × (found.actionable ≡ label_count ("r", "*") actionable_label events)
    × (found.actionable + found.non_actionable ≡ found.support)
    × (found.ratio_numerator ≡ found.actionable + 1)
    × (found.ratio_denominator ≡ found.support + 2)
build_priors-counts_example = build_priors-counts events ("r", "*") found events_prior

abbrev float_text : FloatText ℕ
float_text = record {
  text = shard_text;
  ratio = λ a b. a;
  to_value = λ n. int n;
  compare_score = Prim.Native.Nat.compare;
  compare_confidence = λ a b. Ordering.eq;
  ends_with = λ a b. true;
}

abbrev finding : Fields
finding = field "rule_id" (str "r") end

rank_findings-IsRanking_example :
    IsRanking (finding ∷ end ∷ []) (rank_findings float_text (finding ∷ end ∷ []) events 0)
rank_findings-IsRanking_example = rank_findings-IsRanking float_text (finding ∷ end ∷ []) events 0

abbrev trial : ℕ → String → TrialRecord
trial index signature = record {
  index = index;
  suggestions = 1;
  signature = signature;
  prompt_tokens = 1;
  completion_tokens = 1;
  total_tokens = 2;
}

abbrev trials : List TrialRecord
trials = trial 0 "s" ∷ trial 1 "t" ∷ trial 2 "s" ∷ []

summarize_trials_lem_example :
    (((summarize_trials trials).stable ≡ true) ↔ Agree trials)
    × ((s : String) → occurrences s (signatures trials) ≤ (summarize_trials trials).majority_count)
    × ((s : String)
        → contains s (signatures trials) ≡ true
        → (k : String) × (contains k (signatures trials) ≡ true)
          × (occurrences k (signatures trials) ≡ (summarize_trials trials).majority_count))
summarize_trials_lem_example = summarize_trials_lem trials
