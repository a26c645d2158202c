-- ===== src/Sharding/Plan/Build.antt =====
-- `build_shard_plan`.
use smart_bench.Prelude.{
  ℕ, zero, suc, ◌+◌, String, Bool, not, ◌&&◌, ◌||◌, Option, none, some, List, [], ◌∷◌, ◌++◌, ◌==◌,
  string_eq, filter, map, length, ltb, max, sorted, str_leb, if◌then◌else◌,
}
use smart_bench.Prelude.Dict.{Dict}
use smart_bench.Prelude.Dict
use smart_bench.Icfg.Graph.{distinct}
use smart_bench.Sharding.Plan.Text.{PathText, normalize, skipped, group_key, numbered}

pub record Shard : Type 0 where
  pub shard_id : String
  pub files : List String
  pub reason : String

pub record ShardPlan : Type 0 where
  pub shards : List Shard
  pub total_files : ℕ
  pub max_files_per_shard : ℕ

abbrev pub Groups : Type 0
Groups = Dict String (List String)

-- The set comprehension, sorted.
unfoldable pub normalized : PathText → List String → List String
unfolding distinct
normalized pt files = sorted str_leb (
    distinct
      (map (normalize pt) (filter (λ p. not (normalize pt p == "") && not (skipped pt p)) files)))

-- `groups.setdefault(key, []).extend(files)`
unfoldable pub extend : Groups → String → List String → Groups
extend groups key files = Dict.insert groups key (Dict.get_or groups key [] ++ files)

unfoldable pub group_files : PathText → Groups → List String → Groups
unfolding extend
group_files pt groups [] = groups
group_files pt groups (p ∷ ps) = group_files pt (extend groups (group_key p) (p ∷ [])) ps

-- The files of the first chunk, and the rest.
abbrev pub take : ℕ → List String → List String
take zero xs = []
take (suc n) [] = []
take (suc n) (x ∷ xs) = x ∷ take n xs

abbrev pub drop : ℕ → List String → List String
drop zero xs = xs
drop (suc n) [] = []
drop (suc n) (x ∷ xs) = drop n xs

-- `[files[i : i + max_files] for i in range(0, len(files), max_files)]`; the fuel is the number of files.
unfoldable pub chunks_of : ℕ → ℕ → List String → List (List String)
chunks_of zero max_files files = []
chunks_of (suc n) max_files [] = []
chunks_of (suc n) max_files (f ∷ files) =
    take max_files (f ∷ files) ∷ chunks_of n max_files (drop max_files (f ∷ files))

-- `chunk_count()`: `math.ceil(len / max_files)` is the number of chunks.
unfoldable pub chunk_count : ℕ → Groups → ℕ
unfolding chunks_of
chunk_count max_files [] = 0
chunk_count max_files ((group, files) ∷ groups) =
    length (chunks_of (length files) max_files files) + chunk_count max_files groups

-- `(len(merged[a]), a) < (len(merged[b]), b)`
abbrev smaller : String × List String → String × List String → Bool
smaller a b =
    ltb (length a.1) (length b.1)
    || (not (ltb (length b.1) (length a.1)) && (str_leb a.0 b.0 && not (a.0 == b.0)))

-- `min(merged, key=...)`, of a first group and the others.
unfoldable pub smallest : String × List String → Groups → String
smallest g [] = g.0
smallest g (h ∷ groups) = smallest (if smaller h g then h else g) groups

-- `merged.pop(name)`
unfoldable pub remove : Groups → String → Groups
remove [] name = []
remove ((group, files) ∷ groups) name =
    if group == name then groups else (group, files) ∷ remove groups name

abbrev pub misc : String
misc = "misc"

-- The body of the loop.
unfoldable pub carry : Groups → String → Groups
unfolding remove extend
carry merged name = extend (remove merged name) misc (Dict.get_or merged name [])

-- `while chunk_count() > shard_cap and len(merged) > 1`; `none` where the fuel runs out.
unfoldable pub merge_loop : ℕ → ℕ → ℕ → Groups → Option Groups
unfolding carry
merge_loop max_files shard_cap fuel [] = some []
merge_loop max_files shard_cap fuel (g ∷ []) = some (g ∷ [])
merge_loop max_files shard_cap zero (g ∷ h ∷ groups) =
    if ltb shard_cap (chunk_count max_files (g ∷ h ∷ groups)) then none else some (g ∷ h ∷ groups)
merge_loop max_files shard_cap (suc fuel) (g ∷ h ∷ groups) =
    let rest =
      merge_loop max_files shard_cap fuel (carry (g ∷ h ∷ groups) (smallest g (h ∷ groups))) in
    if ltb shard_cap (chunk_count max_files (g ∷ h ∷ groups)) then rest else some (g ∷ h ∷ groups)

-- The shards of one group's chunks.
unfoldable pub number_chunks : PathText → String → ℕ → List (List String) → List Shard
number_chunks pt group index [] = []
number_chunks pt group index (chunk ∷ chunks) =
    record {
      shard_id = numbered pt group (index + 1);
      files = chunk;
      reason = if group == misc then "merged-directory" else "directory";
    }
    ∷ number_chunks pt group (index + 1) chunks

unfoldable pub shards_of_chunks : PathText → String → List (List String) → List Shard
unfolding number_chunks
shards_of_chunks pt group [] = []
shards_of_chunks pt group (chunk ∷ []) =
    record {
      shard_id = group;
      files = chunk;
      reason = if group == misc then "merged-directory" else "directory";
    }
    ∷ []
shards_of_chunks pt group (chunk ∷ other ∷ chunks) =
    number_chunks pt group 0 (chunk ∷ other ∷ chunks)

abbrev pub by_name : String × List String → String × List String → Bool
by_name a b = str_leb a.0 b.0

unfoldable pub shards_of : PathText → ℕ → Groups → List Shard
unfolding shards_of_chunks chunks_of
shards_of pt max_files [] = []
shards_of pt max_files ((group, files) ∷ groups) =
    shards_of_chunks pt group (chunks_of (length files) max_files (sorted str_leb files))
    ++ shards_of pt max_files groups

-- `none` where the fuel runs out.
unfoldable pub build_shard_plan : PathText → ℕ → List String → ℕ → ℕ → Option ShardPlan
unfolding normalized group_files shards_of
build_shard_plan pt fuel files max_files_per_shard max_shards =
    elim (merge_loop (max 1 max_files_per_shard) (max 1 max_shards) fuel
      (group_files pt [] (normalized pt files))) [
        | none ↦ none
        | some merged ↦ some (record {
          shards = shards_of pt (max 1 max_files_per_shard) (sorted by_name merged);
          total_files = length (normalized pt files);
          max_files_per_shard = max 1 max_files_per_shard;
        })
      ]
