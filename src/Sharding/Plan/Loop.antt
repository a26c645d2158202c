-- ===== src/Sharding/Plan/Loop.antt =====
-- A plan for which the loop that merges groups never ends.
use smart_bench.Prelude.{
  ℕ, zero, suc, ◌<◌, String, ◌≡◌, ◌≢◌, refl, true, false, none, List, [], ◌∷◌, ◌==◌, string_eq,
  length, ltb, arith, ap, ◌∙◌,
}
use smart_bench.Prelude.Dict
use smart_bench.Sharding.Plan.Build.{chunk_count, smallest, remove, extend, carry, merge_loop, misc}

smallest-misc :
    (group : String) (files few : List String)
    → length few < length files
    → smallest (group, files) ((misc, few) ∷ []) ≡ misc
unfolding smallest
smallest-misc group files few l = rw (smallest, first) refl
  where
    first : ltb (length few) (length files) ≡ true
    first = ground arith

carry-misc :
    (group : String) (files few : List String)
    → group == misc ≡ false
    → carry ((group, files) ∷ (misc, few) ∷ []) misc ≡ (group, files) ∷ (misc, few) ∷ []
unfolding carry remove extend Dict.insert Dict.get_or Dict.get
carry-misc group files few h = ground arith

-- Where `misc` has fewer files than the only other group, the loop takes `misc` out and puts it back as
-- it was. If the shards are above the cap then, the loop runs for ever: no number of rounds ends it.
pub merge_loop_diverges :
    (max_files shard_cap fuel : ℕ) (group : String) (files few : List String)
    → group ≢ misc
    → length few < length files
    → shard_cap < chunk_count max_files ((group, files) ∷ (misc, few) ∷ [])
    → merge_loop max_files shard_cap fuel ((group, files) ∷ (misc, few) ∷ []) ≡ none
unfolding merge_loop
merge_loop_diverges max_files shard_cap zero group files few ne l c = ground arith
merge_loop_diverges max_files shard_cap (suc fuel) group files few ne l c =
    by_round (merge_loop_diverges max_files shard_cap fuel group files few ne l c)
  where
    same :
        carry ((group, files) ∷ (misc, few) ∷ []) (smallest (group, files) ((misc, few) ∷ []))
        ≡ (group, files) ∷ (misc, few) ∷ []
    same =
        ap (carry ((group, files) ∷ (misc, few) ∷ [])) (smallest-misc group files few l)
        ∙ carry-misc group files few (ground (arith, string_eq.same_iff group misc))

    by_round :
        merge_loop max_files shard_cap fuel ((group, files) ∷ (misc, few) ∷ []) ≡ none
        → merge_loop max_files shard_cap (suc fuel) ((group, files) ∷ (misc, few) ∷ []) ≡ none
    by_round h = ground (arith, ap (merge_loop max_files shard_cap fuel) same)
