-- ===== src/Sharding/Merge/Combine.antt =====
-- `merge_shard_results`. The log, the tokens, the duration and the plan's own record are left out.
use smart_bench.Prelude.{
  ℕ, suc, ◌+◌, String, Bool, false, ◌&&◌, Option, none, some, List, [], ◌∷◌, ◌++◌, ◌==◌, string_eq,
  pair_eq, map, all, filter, sorted, str_leb, if◌then◌else◌,
}
use smart_bench.Prelude.Dict.{Dict}
use smart_bench.Prelude.Dict
use smart_bench.Ir.Values.{Value, Fields}
use smart_bench.Sharding.Merge.Whole.{whole_eq}
use smart_bench.Sharding.Merge.Keys.{ShardText, Key, suggestion_key, sort_order, is_stronger}

-- Of a shard's DebateResult what is merged.
pub record ShardResult : Type 0 where
  pub final_suggestions : List Fields
  pub unreviewed_suggestions : List Value
  pub consensus_reached : Bool
  pub iterations : ℕ

pub record ShardOutcome : Type 0 where
  pub shard_id : String
  pub status : String
  pub result : Option ShardResult
  pub error : String

-- The variables of the loop over suggestions.
pub record Best : Type 0 where
  pub best : Dict Key (Fields × String)
  pub duplicates : ℕ
  pub conflicts : ℕ

abbrev pub rivalled : ShardText → Best → Key → Fields → String → Option (Fields × String) → Best
rivalled t b k s shard none = record {
  best = Dict.insert b.best k (s, shard);
  duplicates = b.duplicates;
  conflicts = b.conflicts;
}
rivalled t b k s shard (some (kept, from)) =
    if is_stronger t s kept
    then record {
      best = Dict.insert b.best k (s, shard);
      duplicates = suc b.duplicates;
      conflicts = suc b.conflicts;
    }
    else record { best = b.best; duplicates = suc b.duplicates; conflicts = b.conflicts }

-- The body of the loop over a shard's suggestions.
unfoldable pub take_suggestion : ShardText → String → Best → Fields → Best
unfolding is_stronger suggestion_key
take_suggestion t shard b s =
    let k = suggestion_key t s in rivalled t b k s shard (Dict.get b.best k)

unfoldable pub take_suggestions : ShardText → String → Best → List Fields → Best
unfolding take_suggestion
take_suggestions t shard b [] = b
take_suggestions t shard b (s ∷ ss) = take_suggestions t shard (take_suggestion t shard b s) ss

abbrev pub suggestions_of : Option ShardResult → List Fields
suggestions_of none = []
suggestions_of (some r) = r.final_suggestions

-- The loop over outcomes; one without a result is passed over.
unfoldable pub take_outcomes : ShardText → Best → List ShardOutcome → Best
unfolding take_suggestions
take_outcomes t b [] = b
take_outcomes t b (o ∷ os) =
    take_outcomes t (take_suggestions t o.shard_id b (suggestions_of o.result)) os

abbrev unreviewed_of : Option ShardResult → List Value
unreviewed_of none = []
unreviewed_of (some r) = r.unreviewed_suggestions

abbrev all_unreviewed : List ShardOutcome → List Value
all_unreviewed [] = []
all_unreviewed (o ∷ os) = unreviewed_of o.result ++ all_unreviewed os

abbrev iterations_of : Option ShardResult → ℕ
iterations_of none = 0
iterations_of (some r) = r.iterations

abbrev total_iterations : List ShardOutcome → ℕ
total_iterations [] = 0
total_iterations (o ∷ os) = iterations_of o.result + total_iterations os

abbrev pub is_completed : ShardOutcome → Bool
is_completed o = o.status == "completed"

-- `getattr(outcome.result, "consensus_reached", False)`
abbrev pub agreed : Option ShardResult → Bool
agreed none = false
agreed (some r) = r.consensus_reached

-- `bool(xs) and all(p(x) for x in xs)`
abbrev pub some_and_all : (ShardOutcome → Bool) → List ShardOutcome → Bool
some_and_all p [] = false
some_and_all p (o ∷ os) = all p (o ∷ os)

pub record MergedResult : Type 0 where
  pub final_suggestions : List Fields
  pub unreviewed_suggestions : List Value
  pub consensus_reached : Bool
  pub review_status : String
  pub stage_statuses : Dict String String
  pub iterations : ℕ
  pub cross_shard_duplicates : ℕ
  pub conflicts_resolved : ℕ

abbrev statuses : Dict String String → List ShardOutcome → Dict String String
statuses d [] = d
statuses d (o ∷ os) = statuses (Dict.insert d o.shard_id o.status) os

abbrev pub by_shard : ShardOutcome → ShardOutcome → Bool
by_shard a b = str_leb a.shard_id b.shard_id

abbrev pub nothing_kept : Best
nothing_kept = record { best = []; duplicates = 0; conflicts = 0 }

abbrev pub by_sort_key : ShardText → Fields × String → Fields × String → Bool
by_sort_key t a b = sort_order t a.0 b.0

unfoldable pub merge_shard_results : ShardText → List ShardOutcome → MergedResult
unfolding take_outcomes sorted sort_order
merge_shard_results t outcomes =
    let ordered = sorted by_shard outcomes in
    let taken = take_outcomes t nothing_kept ordered in
    let done = some_and_all is_completed ordered in
    record {
      final_suggestions = map (λ p. p.0) (sorted (by_sort_key t) (Dict.values taken.best));
      unreviewed_suggestions = all_unreviewed ordered;
      consensus_reached =
          some_and_all (λ (o : ShardOutcome). agreed o.result) (filter is_completed ordered)
          && done;
      review_status = if done then "completed" else "partial";
      stage_statuses = statuses [] ordered;
      iterations = total_iterations ordered;
      cross_shard_duplicates = taken.duplicates;
      conflicts_resolved = taken.conflicts;
    }
