-- ===== src/Examples/Merges.antt =====
-- Witnesses for the theorems on contracts, unions of representations and merged shards.
use smart_bench.Prelude.{◌≡◌, ◌↔◌, refl, String, Bool, true, some, List, [], ◌∷◌, arith, IsIn}
use Prim.Native.Nat.{Ordering}
use smart_bench.Ir.Values.{Items, Fields, nil, cons, str, arr, obj, bool, end, field}
use smart_bench.Ir.Operations.{SemanticOperation, OperationKind}
use smart_bench.Debate.Gate.{lookup}
use smart_bench.Code.Graph.{empty_graph}
use smart_bench.Contracts.Shapes.{HasShape}
use smart_bench.Contracts.Validate.{validate_semantic_ir}
use smart_bench.Contracts.Accepts.{validate_semantic_ir_iff}
use smart_bench.Representation.Merge
use smart_bench.Representation.Merge.{SemanticIr, Ids}
use smart_bench.Representation.Merged.{IsMerged, merge-IsMerged, merge-valid_iff}
use smart_bench.Sharding.Plan.{Shard, ShardPlan}
use smart_bench.Sharding.Merge.Whole.{pos}
use smart_bench.Sharding.Merge.Keys.{ShardText, is_stronger}
use smart_bench.Sharding.Merge.Combine.{ShardOutcome, merge_shard_results, agreed}
use smart_bench.Sharding.Merge.Kept.{IsStrict}
use smart_bench.Sharding.Merge.Result.{IsResult, merge_shard_results-IsResult}
use smart_bench.Sharding.Merge.Status.{Everywhere, merge_shard_results-status}
use smart_bench.Sharding.Runner.{Ran, raised, run_sharded_review}
use smart_bench.Sharding.Reviewed.{IsArrival, IsReviewed, run_sharded_review-IsReviewed}
use smart_bench.Examples.Data.{plain_text, operation}

abbrev returning : SemanticOperation
returning = record {
  id = "r";
  kind = OperationKind.return;
  language = "python";
  scope_id = "f";
  location = (operation "r" "f" OperationKind.return).location;
  target = "";
  value = "";
  operands = [];
  attributes = ("values", arr (cons (str "x") nil)) ∷ [];
}

abbrev malformed : SemanticOperation
malformed = operation "m" "f" OperationKind.call

validate_semantic_ir_iff_example :
    (validate_semantic_ir plain_text (malformed ∷ returning ∷ []) ≡ [])
    ↔ ((o : SemanticOperation) → IsIn o (malformed ∷ returning ∷ []) → HasShape plain_text o o.kind)
validate_semantic_ir_iff_example = validate_semantic_ir_iff plain_text (malformed ∷ returning ∷ [])

abbrev ir : SemanticOperation → SemanticIr String String
ir o = record {
  graph = empty_graph end;
  project_path = "";
  languages = "python" ∷ [];
  capabilities = [];
  source_units = [];
  facts = [];
  operations = o ∷ [];
  operation_edges = [];
  type_evidence = "t" ∷ [];
  schema_version = "semantic-ir/v1";
}

abbrev ids : Ids String
ids = record { fact_id = λ f. f.subject; evidence_id = λ s. s }

merge-IsMerged_example :
    IsMerged plain_text ids
      (ir returning)
      (ir malformed)
      (Merge.merge plain_text ids (ir returning) (ir malformed))
merge-IsMerged_example = merge-IsMerged plain_text ids (ir returning) (ir malformed)

merge-valid_iff_example :
    (report : Fields) × (b : Bool) × (lookup
        (Merge.merge plain_text ids (ir returning) (ir malformed)).graph.meta
        "semantic_contract"
      ≡ some (obj report))
    × (lookup report "valid" ≡ some (bool b))
    × ((b ≡ true) ↔ (
        (o : SemanticOperation)
        → IsIn o (Merge.merge plain_text ids (ir returning) (ir malformed)).operations
        → HasShape plain_text o o.kind))
merge-valid_iff_example = merge-valid_iff plain_text ids (ir returning) (ir malformed)

-- Every confidence counts the same, so the evidence decides.
abbrev pub shard_text : ShardText
shard_text = record {
  py = plain_text;
  to_int = λ v. some (pos 1);
  partition = λ s. (s, "");
  before_dash = λ s. s;
  compare_confidence = λ a b. Ordering.eq;
  is_true_other = λ n. true;
}

shard_text-IsStrict : IsStrict shard_text
unfolding is_stronger
shard_text-IsStrict = record {
  irreflexive = λ a. ground arith;
  transitive = λ a b c h k. ground arith;
}

abbrev suggestion : Items → Fields
suggestion evidence =
    field "rule_id" (str "r") (field "file_path" (str "a.py") (field "evidence" (arr evidence) end))

abbrev outcome : String → Items → ShardOutcome
outcome id evidence = record {
  shard_id = id;
  status = "completed";
  result = some (record {
    final_suggestions = suggestion evidence ∷ [];
    unreviewed_suggestions = [];
    consensus_reached = true;
    iterations = 1;
  });
  error = "";
}

abbrev outcomes : List ShardOutcome
outcomes = outcome "b" (cons (str "e") nil) ∷ outcome "a" nil ∷ []

merge_shard_results-IsResult_example :
    IsResult shard_text outcomes (merge_shard_results shard_text outcomes)
merge_shard_results-IsResult_example =
    merge_shard_results-IsResult shard_text outcomes shard_text-IsStrict

merge_shard_results-status_example :
    (((merge_shard_results shard_text outcomes).review_status ≡ "completed")
      ↔ Everywhere (λ o. o.status ≡ "completed") outcomes)
    × (((merge_shard_results shard_text outcomes).consensus_reached ≡ true)
        ↔ Everywhere (λ o. (o.status ≡ "completed") × (agreed o.result ≡ true)) outcomes)
merge_shard_results-status_example = merge_shard_results-status shard_text outcomes

abbrev shard : String → Shard
shard id = record { shard_id = id; files = "a.py" ∷ []; reason = "" }

abbrev plan : ShardPlan
plan = record { shards = shard "a" ∷ shard "b" ∷ []; total_files = 2; max_files_per_shard = 1 }

abbrev failing : Shard → Ran
failing s = raised "timeout"

in_order-IsArrival : IsArrival (λ ss. ss)
in_order-IsArrival = record { same = λ ss s. (λ m. m, λ m. m); counted = λ ss. refl }

run_sharded_review-IsReviewed_example :
    IsReviewed failing plan.shards (run_sharded_review (λ n. n) (λ ss. ss) plan failing 2 (some 0))
run_sharded_review-IsReviewed_example =
    run_sharded_review-IsReviewed (λ n. n) (λ ss. ss) plan failing 2 (some 0) in_order-IsArrival
