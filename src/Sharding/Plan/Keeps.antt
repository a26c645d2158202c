-- ===== src/Sharding/Plan/Keeps.antt =====
-- The plan keeps every file, once, in shards of bounded size.
use smart_bench.Prelude.{
  ℕ, suc, ◌-◌, String, ◌≡◌, refl, true, not, ◌&&◌, Option, none, some, List, [], ◌==◌, string_eq,
  length, max, all, map, sorted, filter, contains, arith, ◌∙◌, ap, subst, if◌then◌else◌,
}
use smart_bench.Sharding.Plan.Text.{PathText, normalize, skipped}
use smart_bench.Icfg.Graph.{distinct}
use smart_bench.Sharding.Plan.Build.{
  ShardPlan, Groups, normalized, group_files, merge_loop, shards_of, build_shard_plan, by_name,
}
use smart_bench.Sharding.Plan.Counts.{count, count-sorted, count-group_files, count-merge_loop}
use smart_bench.Sharding.Plan.Chunks.{
  plan_files, is_bounded, count-shards_of, all_shards_bounded, count-by_name, count-distinct,
}

-- The paths that the plan is to cover.
abbrev pub wanted_paths : PathText → List String → List String
wanted_paths pt files =
    map (normalize pt) (filter (λ p. not (normalize pt p == "") && not (skipped pt p)) files)

count-normalized :
    (pt : PathText) (p : String) (files : List String)
    → count p (normalized pt files) ≡ (if contains p (wanted_paths pt files) then 1 else 0)
unfolding normalized
count-normalized pt p files =
    count-sorted p (distinct (wanted_paths pt files)) ∙ count-distinct p (wanted_paths pt files)

pub some_injective : {a b : ShardPlan} → some a ≡ some b → a ≡ b
some_injective {a} h = ap (λ o. elim o [ none ↦ a | some x ↦ x ]) h

-- A plan that is returned puts every path that is not skipped in exactly one place of one shard and nothing
-- else in any, and no shard has more files than the plan says.
pub plan_partition :
    (pt : PathText) (fuel : ℕ) (files : List String) (max_files max_shards : ℕ) (plan : ShardPlan)
    → build_shard_plan pt fuel files max_files max_shards ≡ some plan
    → ((p : String)
        → count p (plan_files plan.shards) ≡ (if contains p (wanted_paths pt files) then 1 else 0))
      × (all (is_bounded plan.max_files_per_shard) plan.shards ≡ true)
unfolding build_shard_plan
plan_partition pt fuel files max_files max_shards plan h =
    by_merged
      (merge_loop (max 1 max_files) (max 1 max_shards) fuel
        (group_files pt [] (normalized pt files)))
      refl h
  where
    IsPartition : ShardPlan → Type 0
    IsPartition s =
        ((p : String)
          → count p (plan_files s.shards) ≡ (if contains p (wanted_paths pt files) then 1 else 0))
        × (all (is_bounded s.max_files_per_shard) s.shards ≡ true)

    counts :
        (merged : Groups) (m : ℕ)
        → max 1 max_files ≡ suc m
        → merge_loop
            (max 1 max_files)
            (max 1 max_shards)
            fuel
            (group_files pt [] (normalized pt files))
          ≡ some merged
        → (p : String)
        → count p (plan_files (shards_of pt (max 1 max_files) (sorted by_name merged)))
          ≡ (if contains p (wanted_paths pt files) then 1 else 0)
    counts merged m k e p =
        ap (λ n. count p (plan_files (shards_of pt n (sorted by_name merged)))) k
        ∙ (count-shards_of pt p m (sorted by_name merged)
            ∙ (count-by_name p merged
                ∙ (count-merge_loop p (max 1 max_files) (max 1 max_shards) fuel
                      (group_files pt [] (normalized pt files)) merged e
                    ∙ ground (
                      arith,
                      count-group_files pt p [] (normalized pt files),
                      count-normalized pt p files,
                    ))))

    by_merged :
        (o : Option Groups)
        → merge_loop
            (max 1 max_files)
            (max 1 max_shards)
            fuel
            (group_files pt [] (normalized pt files))
          ≡ o
        → (elim o [
          | none ↦ none
          | some merged ↦ some (record {
            shards = shards_of pt (max 1 max_files) (sorted by_name merged);
            total_files = length (normalized pt files);
            max_files_per_shard = max 1 max_files;
          })
        ])
          ≡ some plan
        → ((p : String)
            → count p (plan_files plan.shards)
              ≡ (if contains p (wanted_paths pt files) then 1 else 0))
          × (all (is_bounded plan.max_files_per_shard) plan.shards ≡ true)
    by_merged none e q = absurd (ground arith)
    by_merged (some merged) e q = subst IsPartition (some_injective q) (
      counts merged (max 1 max_files - 1) (omega arith) e,
      all_shards_bounded pt (max 1 max_files) (sorted by_name merged),
    )
