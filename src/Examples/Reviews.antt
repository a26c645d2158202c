-- ===== src/Examples/Reviews.antt =====
-- Witnesses for the theorems on debates and shards.
use smart_bench.Prelude.{
  ◌≤◌, ◌<◌, ◌⊎◌, ℕ, ◌+◌, ◌*◌, ◌≡◌, ◌≢◌, ◌↔◌, refl, String, true, false, Option, List, some, none,
  [], ◌∷◌, length, contains, string_eq, all, max, IsIn, sorted, nat_eq, arith, if◌then◌else◌,
}
use smart_bench.Prelude.Dict
use smart_bench.Ir.Values.{Value, nil, cons, str, arr, obj, end, field}
use smart_bench.Debate.Gate.{CitesValid, grounded_items, grounded_items_iff}
use smart_bench.Debate.Call.{
  Attempt, raises, replies, IsAnswered, safe_json_call, safe_json_call_answers,
}
use smart_bench.Debate.Run.{
  optional, required, Roles, DebateResult, done, runtime_error, value_error, complete, debate,
  review, debate_grounded, debate_complete, AllGrounded,
}
use smart_bench.Sharding.Plan.{
  PathText, normalize, skipped, group_key, ShardPlan, build_shard_plan, plan_partition, plan_size,
  plan_decided, normalized, merge_loop, merge_loop_diverges, misc, count, plan_files, wanted_paths,
  is_bounded, chunk_count,
}
use smart_bench.Examples.Data.{apart}

abbrev cited : Value
cited = obj (field "fact_ids" (arr (cons (str "fact-1") nil)) end)

abbrev uncited : Value
uncited = obj end

grounded_items_iff_example :
    ((item : Value)
      → IsIn item (grounded_items ("fact-1" ∷ []) (cited ∷ uncited ∷ [])).items
        ↔ (IsIn item (cited ∷ uncited ∷ []) × CitesValid ("fact-1" ∷ []) item))
    × ((grounded_items ("fact-1" ∷ []) (cited ∷ uncited ∷ [])).accepted
        ≡ length (grounded_items ("fact-1" ∷ []) (cited ∷ uncited ∷ [])).items)
    × ((grounded_items ("fact-1" ∷ []) (cited ∷ uncited ∷ [])).accepted
          + (grounded_items ("fact-1" ∷ []) (cited ∷ uncited ∷ [])).rejected
        ≡ length (cited ∷ uncited ∷ []))
grounded_items_iff_example = grounded_items_iff ("fact-1" ∷ []) (cited ∷ uncited ∷ [])

abbrev roles : Roles
roles = record {
  proposer = some (cited ∷ uncited ∷ []);
  critique = λ proposals. some [];
  judge = λ proposals critique. some (cited ∷ uncited ∷ []);
}

not_optional : required ≢ optional
not_optional = ground arith

debate_grounded_example :
    ((r : DebateResult) × (debate true required (some ("fact-1" ∷ [])) roles none ≡ done r)
      × AllGrounded ("fact-1" ∷ []) r.final_suggestions
      × AllGrounded ("fact-1" ∷ []) r.unreviewed_suggestions)
    × (debate true required none roles none ≡ value_error)
    × ((pack : Option (List String)) → debate false required pack roles none ≡ runtime_error)
debate_grounded_example = debate_grounded required roles none ("fact-1" ∷ []) not_optional

abbrev reviewed : DebateResult
reviewed = review required (some ("fact-1" ∷ [])) roles none (cited ∷ uncited ∷ [])

debate_complete_example :
    ((reviewed.consensus_reached ≡ true) ↔ (reviewed.review_status ≡ complete))
    × ((item : Value) → IsIn item reviewed.final_suggestions → reviewed.review_status ≡ complete)
unfolding debate
debate_complete_example =
    debate_complete true required (some ("fact-1" ∷ [])) roles none reviewed refl

-- The first attempt fails and the second answers.
abbrev second_answers : ℕ → Attempt
second_answers n =
    if contains n (0 ∷ [])
    then replies "{}" (some (field "proposals" (arr (cons cited nil)) end))
    else raises "TimeoutError"

safe_json_call_answers_example :
    IsAnswered second_answers "proposals"
      (max 1 2)
      (safe_json_call second_answers "proposals" "invalid" 2)
safe_json_call_answers_example = safe_json_call_answers second_answers "proposals" "invalid" 2

abbrev path_text : PathText
path_text = record {
  strip = λ s. s;
  decimal = λ n. if contains n (1 ∷ []) then "1" else if contains n (2 ∷ []) then "2" else "3";
}

abbrev plan : ShardPlan
plan = record {
  shards = record { shard_id = "root"; files = "a" ∷ "b" ∷ []; reason = "directory" } ∷ [];
  total_files = 2;
  max_files_per_shard = 40;
}

plan_partition_example :
    ((p : String)
      → count p (plan_files plan.shards) ≡ (
          if contains p (wanted_paths path_text ("b" ∷ "./a" ∷ "dist/x" ∷ "a" ∷ [])) then 1 else 0))
    × (all (is_bounded 40) plan.shards ≡ true)
unfolding build_shard_plan merge_loop sorted Dict.insert chunk_count Dict.get_or Dict.get normalize
    skipped group_key
plan_partition_example =
    plan_partition path_text 2 ("b" ∷ "./a" ∷ "dist/x" ∷ "a" ∷ []) 40 20 plan refl

merge_loop_diverges_example :
    merge_loop 1 1 100 (("src", "src/a" ∷ "src/b" ∷ []) ∷ (misc, "x/c" ∷ []) ∷ []) ≡ none
unfolding chunk_count
merge_loop_diverges_example =
    merge_loop_diverges 1 1 100 "src" ("src/a" ∷ "src/b" ∷ []) ("x/c" ∷ []) (apart "src" misc refl)
      (omega arith) (omega arith)

-- Five files of one directory, two to a shard: three shards, above the cap of one.
abbrev five : List String
five = "a" ∷ "b" ∷ "c" ∷ "d" ∷ "e" ∷ []

abbrev wide_plan : ShardPlan
wide_plan = record {
  shards =
      record { shard_id = "root:1"; files = "a" ∷ "b" ∷ []; reason = "directory" }
      ∷ record { shard_id = "root:2"; files = "c" ∷ "d" ∷ []; reason = "directory" }
      ∷ record { shard_id = "root:3"; files = "e" ∷ []; reason = "directory" }
      ∷ [];
  total_files = 5;
  max_files_per_shard = 2;
}

plan_size_example :
    (length (plan_files wide_plan.shards) ≤ length wide_plan.shards * 2)
    × ((length wide_plan.shards ≤ max 1 1)
        ⊎ (length wide_plan.shards * 2 < length (plan_files wide_plan.shards) + 2))
unfolding build_shard_plan merge_loop sorted Dict.insert chunk_count Dict.get_or Dict.get normalize
    skipped group_key
plan_size_example = plan_size path_text 0 five 2 1 wide_plan refl

-- Two directories of a file each, with a cap of one shard: both are merged.
abbrev two_directories : List String
two_directories = "a/x" ∷ "b/y" ∷ []

plan_decided_example :
    ((p : ShardPlan) × (build_shard_plan path_text 2 two_directories 2 1 ≡ some p))
    ⊎ ((rounds : ℕ) → build_shard_plan path_text rounds two_directories 2 1 ≡ none)
unfolding normalized sorted normalize skipped
plan_decided_example = plan_decided path_text 2 two_directories 2 1 (omega arith)
