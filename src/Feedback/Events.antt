-- ===== src/Feedback/Events.antt =====
-- The events, and the counts per rule and language that `build_priors` makes of them.
use smart_bench.Prelude.{
  ℕ, ◌+◌, ◌-◌, String, Option, none, some, List, [], ◌∷◌, ◌==◌, string_eq, pair_eq, if◌then◌else◌,
}
use smart_bench.Prelude.Dict.{Dict}
use smart_bench.Prelude.Dict
use smart_bench.Prelude.Counter.{tally, total}

-- What the priors read of an event.
pub record FeedbackEvent : Type 0 where
  pub event_id : String
  pub label : String
  pub rule_id : String
  pub language : String

abbrev pub actionable_label : String
actionable_label = "actionable"

-- `text or "*"`
abbrev pub or_star : String → String
or_star s = if s == "" then "*" else s

abbrev pub Key : Type 0
Key = String × String

unfoldable pub event_key : FeedbackEvent → Key
event_key e = (or_star e.rule_id, or_star e.language)

abbrev pub Buckets : Type 0
Buckets = Dict Key (Dict String ℕ)

-- `buckets[key][event.label] += 1`
unfoldable pub add_event : Buckets → FeedbackEvent → Buckets
unfolding tally event_key
add_event b e = Dict.insert b (event_key e) (tally (Dict.get_or b (event_key e) []) e.label)

unfoldable pub add_events : Buckets → List FeedbackEvent → Buckets
unfolding add_event
add_events b [] = b
add_events b (e ∷ es) = add_events (add_event b e) es

-- A prior. Its ratio is the rounded quotient of two numbers, which are kept.
pub record Prior : Type 0 where
  pub rule_id : String
  pub language : String
  pub support : ℕ
  pub actionable : ℕ
  pub non_actionable : ℕ
  pub ratio_numerator : ℕ
  pub ratio_denominator : ℕ
  pub label_counts : Dict String ℕ

-- `_prior`. The subtraction's operands are counts of which the second is part of the first.
unfoldable pub prior : Key → Dict String ℕ → Prior
prior key counts =
    let support = total (Dict.values counts) in
    let actionable = Dict.get_or counts actionable_label 0 in
    record {
      rule_id = key.0;
      language = key.1;
      support = support;
      actionable = actionable;
      non_actionable = support - actionable;
      ratio_numerator = actionable + 1;
      ratio_denominator = support + 2;
      label_counts = counts;
    }

abbrev pub priors_of : Buckets → Dict Key Prior
priors_of [] = []
priors_of ((k, counts) ∷ b) = (k, prior k counts) ∷ priors_of b

unfoldable pub build_priors : List FeedbackEvent → Dict Key Prior
unfolding add_events prior
build_priors events = priors_of (add_events [] events)

abbrev pub first_of {ℓ} : {A : Type ℓ} → Option A → Option A → Option A
first_of none b = b
first_of (some a) b = some a

-- The exact key, then the rule alone, then the language alone.
unfoldable pub prior_for : Dict Key Prior → String → String → Option Prior
prior_for priors rule_id language =
    let rule = or_star rule_id in
    let lang = or_star language in
    first_of (Dict.get priors (rule, lang))
      (first_of (Dict.get priors (rule, "*")) (Dict.get priors ("*", lang)))
