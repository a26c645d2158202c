-- ===== src/Examples/Queue.antt =====
-- Witnesses for the theorems on the consent queue and on packs scoped to shards.
use smart_bench.Prelude.{
  ◌≡◌, ◌≢◌, ◌⊎◌, refl, sym, ap, true, none, some, unique, List, [], ◌∷◌, nat_eq, contains,
  string_eq, IsIn, here, sorted,
}
use smart_bench.Prelude.Dict
use smart_bench.Evidence.Pack.{SemanticFact, EvidencePack}
use smart_bench.Consent.Queue.{
  Request, new_request, staged, count_slashes, stage, written, value_error, change_or_add, Changes,
  changed, update_request, change_first, update_all,
}
use smart_bench.Consent.Staged.{IsQueue}
use smart_bench.Consent.Reached.{
  AreDistinct, empty, staging, updating, Reached-IsQueue, IsStaged, stage-IsStaged,
}
use smart_bench.Sharding.Plan.{
  PathText, Shard, ShardPlan, build_shard_plan, merge_loop, chunk_count, normalize, skipped,
  group_key, wanted_paths,
}
use smart_bench.Sharding.Packs.{scope_evidence_pack, scope_evidence_pack-covers}
use smart_bench.Examples.Data.{plain_text, place}

abbrev first : Request
first = staged "now" "t1" "p" (new_request "now" "o/r" "p")

staged_first : stage plain_text "now" "o/r" "t1" "p" [] ≡ written (first ∷ []) first
unfolding stage change_or_add
staged_first = refl

-- The trajectories are replaced, the status and the note are set.
abbrev changes : Changes
changes = record {
  project_name = none;
  trajectory_ids = some ("t2" ∷ "t3" ∷ []);
  status = some "requested";
  created_at = none;
  updated_at = none;
  requested_at = some (some "later");
  contact_source = none;
  message_id = none;
  note = some "sent";
  others = [];
}

changes_distinct : AreDistinct changes
changes_distinct ids e = ap (λ o. unique (Dict.or_default o [])) (sym e)

updated_first :
    update_request plain_text "later" "o/r" changes (first ∷ [])
    ≡ some (changed "later" changes first ∷ [], changed "later" changes first)
unfolding update_request change_first update_all
updated_first = refl

Reached-IsQueue_example : IsQueue plain_text (changed "later" changes first ∷ [])
Reached-IsQueue_example = Reached-IsQueue plain_text (
    updating "later" "o/r" changes changes_distinct updated_first
      (staging "now" "o/r" "t1" "p" staged_first empty))

stage-IsStaged_example :
    ((count_slashes "o/r" ≢ 1) × (stage plain_text "now" "o/r" "t2" "p" (first ∷ []) ≡ value_error))
    ⊎ ((q' : List Request) × (r : Request) × (count_slashes "o/r" ≡ 1)
        × (stage plain_text "now" "o/r" "t2" "p" (first ∷ []) ≡ written q' r)
        × IsStaged plain_text "o/r" "t2" (first ∷ []) q' r)
stage-IsStaged_example = stage-IsStaged plain_text "now" "o/r" "t2" "p" (first ∷ [])

abbrev path_text : PathText
path_text = record { strip = λ s. s; decimal = λ n. "1" }

abbrev plan : ShardPlan
plan = record {
  shards = record { shard_id = "root"; files = "a.py" ∷ []; reason = "directory" } ∷ [];
  total_files = 1;
  max_files_per_shard = 40;
}

abbrev fact : SemanticFact
fact = record {
  subject = "f";
  predicate = "state_transition";
  object = "";
  evidence = place ∷ [];
  attributes = [];
}

abbrev pack : EvidencePack
pack = record {
  query = "q";
  facts = fact ∷ [];
  evidence = place ∷ [];
  retrieval_trace = [];
  graph_version = "v";
}

planned : build_shard_plan path_text 2 ("./a.py" ∷ []) 40 20 ≡ some plan
unfolding build_shard_plan merge_loop sorted Dict.insert chunk_count Dict.get_or Dict.get normalize
    skipped group_key
planned = refl

wanted : contains (normalize path_text "a.py") (wanted_paths path_text ("./a.py" ∷ [])) ≡ true
unfolding normalize skipped
wanted = refl

stable : normalize path_text (normalize path_text "a.py") ≡ normalize path_text "a.py"
unfolding normalize
stable = refl

scope_evidence_pack-covers_example :
    ((s : Shard) × IsIn s plan.shards × IsIn fact (scope_evidence_pack path_text pack s).facts)
    × ((s : Shard) (g : SemanticFact)
        → IsIn g (scope_evidence_pack path_text pack s).facts
        → IsIn g pack.facts)
scope_evidence_pack-covers_example =
    scope_evidence_pack-covers path_text 2 ("./a.py" ∷ []) 40 20 plan pack fact place planned here
      here wanted stable
