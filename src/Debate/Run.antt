-- ===== src/Debate/Run.antt =====
-- `DebateEngine.debate`. Prompts, logs, progress callbacks and times are left out; what the roles answer and what
-- the verifier makes of a list are parameters, an exception of the verifier being `none`.
use smart_bench.Prelude.{
  ℕ, String, ◌≡◌, ◌≢◌, ◌↔◌, refl, Bool, true, false, not, ◌&&◌, Option, none, some, List, [], ◌∷◌,
  string_eq, if◌then◌else◌, IsIn, arith, subst,
}
use smart_bench.Ir.Values.{Value}
use smart_bench.Debate.Gate.{grounded_items, CitesValid, grounded_items_iff}

pub data EvidencePolicy : Type 0 where
  optional required exclusive : EvidencePolicy

-- The lists that the roles' parsed answers hold (`proposals`, `verdicts`, `final_suggestions`); `none` where a call
-- gave no parsed answer.
pub record Roles : Type 0 where
  pub proposer : Option (List Value)
  pub critique : List Value → Option (List Value)
  pub judge : List Value → Option (List Value) → Option (List Value)

pub record Verifier : Type 0 where
  pub verify_proposals : List Value → Option (List Value)
  pub verify_critique : List Value → List Value → Option (List Value)

pub record StageStatuses : Type 0 where
  pub proposer_complete : Bool
  pub critique_complete : Bool
  pub judge_complete : Bool

pub data ReviewStatus : Type 0 where
  failed partial complete : ReviewStatus

pub record DebateResult : Type 0 where
  pub final_suggestions : List Value
  pub unreviewed_suggestions : List Value
  pub unreviewed_source : String
  pub consensus_reached : Bool
  pub review_status : ReviewStatus
  pub stage_statuses : StageStatuses
  pub iterations : ℕ

-- The result, the RuntimeError for an engine without a factory of prompts, or the ValueError for a missing pack.
pub data Outcome : Type 0 where
  runtime_error value_error : Outcome
  done : DebateResult → Outcome

-- `evidence_pack is not None and self.evidence_policy != EvidencePolicy.OPTIONAL`: the gate of a pack, given by its
-- fact ids.
unfoldable pub gate : EvidencePolicy → Option (List String) → List Value → List Value
gate optional pack items = items
gate required none items = items
gate required (some ids) items = (grounded_items ids items).items
gate exclusive none items = items
gate exclusive (some ids) items = (grounded_items ids items).items

abbrev is_missing : EvidencePolicy → Option (List String) → Bool
is_missing optional pack = false
is_missing required none = true
is_missing required (some ids) = false
is_missing exclusive none = true
is_missing exclusive (some ids) = false

-- A verification pass: an exception or an absent verifier leaves the list, and so does an empty list.
abbrev or_same : List Value → Option (List Value) → List Value
or_same items none = items
or_same items (some verified) = verified

unfoldable pub verified : Option Verifier → List Value → List Value
verified none items = items
verified (some v) [] = []
verified (some v) (item ∷ items) = or_same (item ∷ items) (v.verify_proposals (item ∷ items))

unfoldable pub checked_critique :
    Option Verifier → Option (List Value) → List Value → Option (List Value)
checked_critique none critique proposals = critique
checked_critique (some v) none proposals = none
checked_critique (some v) (some verdicts) proposals =
    some (or_same verdicts (v.verify_critique verdicts proposals))

abbrev is_some : Option (List Value) → Bool
is_some none = false
is_some (some x) = true

abbrev pub Split : Type 0
Split = List Value × List Value × String

-- Final suggestions, unreviewed ones and their source.
unfoldable pub split :
    Option Verifier → List Value → Option (List Value) → Option (List Value) → Split
unfolding verified
split v proposals critique (some judged) = elim critique [
  | none ↦ ([], verified v judged, "judge")
  | some verdicts ↦ (verified v judged, [], "")
]
split v proposals critique none = ([], proposals, "proposer")

abbrev failed_result : DebateResult
failed_result = record {
  final_suggestions = [];
  unreviewed_suggestions = [];
  unreviewed_source = "";
  consensus_reached = false;
  review_status = failed;
  stage_statuses = record {
    proposer_complete = false;
    critique_complete = false;
    judge_complete = false;
  };
  iterations = 0;
}

-- The rounds after the proposer's.
unfoldable pub review :
    EvidencePolicy → Option (List String) → Roles → Option Verifier → List Value → DebateResult
unfolding gate verified checked_critique split
review policy pack roles v first =
    let proposals = verified v (gate policy pack first) in
    let critique = checked_critique v (roles.critique proposals) proposals in
    let judge = roles.judge proposals critique in
    let s = split v proposals critique judge in
    record {
      final_suggestions = gate policy pack s.0;
      unreviewed_suggestions = gate policy pack s.1;
      unreviewed_source = s.2;
      consensus_reached = is_some critique && is_some judge;
      review_status = if is_some critique && is_some judge then complete else partial;
      stage_statuses = record {
        proposer_complete = true;
        critique_complete = is_some critique;
        judge_complete = is_some judge;
      };
      iterations = 3;
    }

-- `has_factory` is the truth of `self.factory`, which is None in an engine made without a factory and a fingerprint.
unfoldable pub debate :
    Bool → EvidencePolicy → Option (List String) → Roles → Option Verifier → Outcome
unfolding review
debate has_factory policy pack roles v =
    if not has_factory
    then runtime_error
    else if is_missing policy pack
    then value_error
    else elim roles.proposer [
      | none ↦ done failed_result
      | some first ↦ done (review policy pack roles v first)
    ]

-- Every suggestion of a list cites a fact, and only facts of the pack.
abbrev pub AllGrounded : List String → List Value → Type 0
AllGrounded ids items = (item : Value) → IsIn item items → CitesValid ids item

gate_grounded :
    (policy : EvidencePolicy) (ids : List String) (items : List Value)
    → policy ≢ optional
    → AllGrounded ids (gate policy (some ids) items)
unfolding gate
gate_grounded optional ids items h = absurd (h refl)
gate_grounded required ids items h = λ item m. (((grounded_items_iff ids items).0 item).0 m).1
gate_grounded exclusive ids items h = λ item m. (((grounded_items_iff ids items).0 item).0 m).1

review_grounded :
    (policy : EvidencePolicy) (roles : Roles) (v : Option Verifier) (ids : List String)
    (first : List Value)
    → policy ≢ optional
    → AllGrounded ids (review policy (some ids) roles v first).final_suggestions
      × AllGrounded ids (review policy (some ids) roles v first).unreviewed_suggestions
unfolding review
review_grounded policy roles v ids first h =
    (λ item m. gate_grounded policy ids _ h item m, λ item m. gate_grounded policy ids _ h item m)

-- An engine without a factory refuses every run. With one, under a policy that needs evidence, a run with a pack
-- gives a result, and every suggestion in it, final or unreviewed, is an object that cites at least one fact of the
-- pack and only such facts; without a pack the run is refused.
pub debate_grounded :
    (policy : EvidencePolicy) (roles : Roles) (v : Option Verifier) (ids : List String)
    → policy ≢ optional
    → ((r : DebateResult) × (debate true policy (some ids) roles v ≡ done r)
        × AllGrounded ids r.final_suggestions
        × AllGrounded ids r.unreviewed_suggestions)
      × (debate true policy none roles v ≡ value_error)
      × ((pack : Option (List String)) → debate false policy pack roles v ≡ runtime_error)
unfolding debate
debate_grounded policy roles v ids h =
    (by_first roles.proposer refl, refused policy h, λ pack. refl)
  where
    refused : (q : EvidencePolicy) → q ≢ optional → debate true q none roles v ≡ value_error
    refused optional k = absurd (k refl)
    refused required k = refl
    refused exclusive k = refl

    given : (q : EvidencePolicy) → is_missing q (some ids) ≡ false
    given optional = refl
    given required = refl
    given exclusive = refl

    empty_grounded : AllGrounded ids []
    empty_grounded item m = elim m [ ]

    by_first :
        (o : Option (List Value))
        → roles.proposer ≡ o
        → (r : DebateResult) × (debate true policy (some ids) roles v ≡ done r)
          × AllGrounded ids r.final_suggestions
          × AllGrounded ids r.unreviewed_suggestions
    by_first none e =
        (failed_result, rw (debate, given policy, e) refl, empty_grounded, empty_grounded)
    by_first (some first) e =
        let g = review_grounded policy roles v ids first h in
        (review policy (some ids) roles v first, rw (debate, given policy, e) refl, g.0, g.1)

abbrev IsComplete : Outcome → Type 0
IsComplete runtime_error = Unit
IsComplete value_error = Unit
IsComplete (done r) =
    ((r.consensus_reached ≡ true) ↔ (r.review_status ≡ complete))
    × ((item : Value) → IsIn item r.final_suggestions → r.review_status ≡ complete)

gate-nil : (policy : EvidencePolicy) (pack : Option (List String)) → gate policy pack [] ≡ []
unfolding gate grounded_items
gate-nil optional pack = refl
gate-nil required none = refl
gate-nil required (some ids) = refl
gate-nil exclusive none = refl
gate-nil exclusive (some ids) = refl

-- The gate has nothing to let through where a stage is not complete.
split_final :
    (policy : EvidencePolicy) (pack : Option (List String)) (v : Option Verifier)
    (proposals : List Value) (critique judge : Option (List Value)) (item : Value)
    → IsIn item (gate policy pack (split v proposals critique judge).0)
    → (if is_some critique && is_some judge then complete else partial) ≡ complete
unfolding split
split_final policy pack v proposals (some verdicts) (some judged) item m = refl
split_final policy pack v proposals none (some judged) item m =
    absurd (elim (subst (IsIn item) (gate-nil policy pack) m) [ ])
split_final policy pack v proposals none none item m =
    absurd (elim (subst (IsIn item) (gate-nil policy pack) m) [ ])
split_final policy pack v proposals (some verdicts) none item m =
    absurd (elim (subst (IsIn item) (gate-nil policy pack) m) [ ])

status_iff : (b : Bool) → (b ≡ true) ↔ ((if b then complete else partial) ≡ complete)
status_iff b = ground arith

review-IsComplete :
    (policy : EvidencePolicy) (pack : Option (List String)) (roles : Roles) (v : Option Verifier)
    (first : List Value)
    → IsComplete (done (review policy pack roles v first))
unfolding review
review-IsComplete policy pack roles v first =
    (status_iff _, λ item m. split_final policy pack v _ _ _ item m)

debate-IsComplete :
    (has_factory : Bool) (policy : EvidencePolicy) (pack : Option (List String)) (roles : Roles)
    (v : Option Verifier)
    → IsComplete (debate has_factory policy pack roles v)
unfolding debate
debate-IsComplete false policy pack roles v = tt
debate-IsComplete true policy pack roles v = by_test (is_missing policy pack) roles.proposer
  where
    by_test :
        (b : Bool) (o : Option (List Value))
        → IsComplete (
            if b then value_error else elim o [
              | none ↦ done failed_result
              | some first ↦ done (review policy pack roles v first)
            ])
    by_test true o = tt
    by_test false none = (ground arith, λ item m. elim m [ ])
    by_test false (some first) = review-IsComplete policy pack roles v first

-- A run reports consensus exactly where its review is complete, and has a final suggestion only there.
pub debate_complete :
    (has_factory : Bool) (policy : EvidencePolicy) (pack : Option (List String)) (roles : Roles)
    (v : Option Verifier) (r : DebateResult)
    → debate has_factory policy pack roles v ≡ done r
    → ((r.consensus_reached ≡ true) ↔ (r.review_status ≡ complete))
      × ((item : Value) → IsIn item r.final_suggestions → r.review_status ≡ complete)
debate_complete has_factory policy pack roles v r e =
    subst IsComplete e (debate-IsComplete has_factory policy pack roles v)
