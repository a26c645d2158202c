-- ===== src/Sharding/Runner.antt =====
-- smartbench/sharding/runner.py: one debate per shard, in turn or in a pool of threads. The clock is a
-- parameter that gives each reading, and so is the order in which the pool's debates end.
use smart_bench.Prelude.{
  ℕ, zero, suc, min, max, String, Bool, true, false, Option, none, some, List, [], ◌∷◌, ◌++◌, ltb,
  eqb, length, map, sorted, if◌then◌else◌,
}
use Prim.Native.String.{◌∷◌ as ◌▹◌}
use Prim.Native.String as Text
use smart_bench.Sharding.Plan.{Shard, ShardPlan}
use smart_bench.Sharding.Merge.Combine.{ShardOutcome, ShardResult, by_shard}

-- What the debate of a shard does: it raises with a message, or returns a result or None.
pub data Ran : Type 0 where
  raised : String → Ran
  returned : Option ShardResult → Ran

-- `message[:300]`
abbrev first_characters : ℕ → String → String
first_characters zero s = Text.[]
first_characters (suc n) Text.[] = Text.[]
first_characters (suc n) (c ▹ s) = c ▹ first_characters n s

unfoldable pub bounded : String → String
bounded message = first_characters 300 message

abbrev pub outcome_of : String → Ran → ShardOutcome
outcome_of id (raised message) = record {
  shard_id = id;
  status = "error";
  result = none;
  error = bounded message;
}
outcome_of id (returned none) = record {
  shard_id = id;
  status = "error";
  result = none;
  error = "shard returned no debate result";
}
outcome_of id (returned (some r)) = record {
  shard_id = id;
  status = "completed";
  result = some r;
  error = "";
}

-- `_run_one`, and the same steps on a future's result.
unfoldable pub run_one : (Shard → Ran) → Shard → ShardOutcome
run_one run s = outcome_of s.shard_id (run s)

abbrev pub skipped : Shard → ShardOutcome
skipped s = record { shard_id = s.shard_id; status = "skipped_budget"; result = none; error = "" }

-- `_past_deadline` at the clock's n-th reading.
unfoldable pub past_deadline : (ℕ → ℕ) → Option ℕ → ℕ → Bool
past_deadline clock none n = false
past_deadline clock (some deadline) n = ltb deadline (clock n)

-- The loop of a single worker.
unfoldable pub run_in_turn : (ℕ → Bool) → (Shard → Ran) → ℕ → List Shard → List ShardOutcome
unfolding run_one
run_in_turn past run n [] = []
run_in_turn past run n (s ∷ ss) =
    (if past n then skipped s else run_one run s) ∷ run_in_turn past run (suc n) ss

abbrev pub dispatched :
    Bool → Shard → List ShardOutcome → List Shard → List ShardOutcome × List Shard
dispatched true s outcomes futures = (skipped s ∷ outcomes, futures)
dispatched false s outcomes futures = (outcomes, s ∷ futures)

-- The loop that submits to the pool: what it skips, and what it submits.
unfoldable pub submit : (ℕ → Bool) → ℕ → List Shard → List ShardOutcome × List Shard
submit past n [] = ([], [])
submit past n (s ∷ ss) =
    let (outcomes, futures) = submit past (suc n) ss in dispatched (past n) s outcomes futures

abbrev shard_count : List Shard → ℕ
shard_count [] = 1
shard_count (s ∷ ss) = length (s ∷ ss)

-- `max(1, min(int(max_workers), len(plan.shards) or 1))`
unfoldable pub worker_count : ShardPlan → ℕ → ℕ
worker_count plan max_workers = max 1 (min max_workers (shard_count plan.shards))

-- `arrive` orders the submitted shards by the end of their debates.
unfoldable pub run_sharded_review :
    (ℕ → ℕ)
    → (List Shard → List Shard)
    → ShardPlan
    → (Shard → Ran)
    → ℕ
    → Option ℕ
    → List ShardOutcome
unfolding run_in_turn submit worker_count past_deadline sorted
run_sharded_review clock arrive plan run max_workers deadline =
    let past = past_deadline clock deadline in
    let (outcomes, futures) = submit past 0 plan.shards in
    if eqb (worker_count plan max_workers) 1
    then sorted by_shard (run_in_turn past run 0 plan.shards)
    else sorted by_shard (outcomes ++ map (run_one run) (arrive futures))
