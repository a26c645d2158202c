-- ===== src/Sharding/Plan/Size.antt =====
-- How many shards a plan of smartbench/sharding/plan.py has.
use smart_bench.Prelude.{
  ℕ, zero, suc, ◌+◌, ◌*◌, ◌-◌, ◌≤◌, ◌<◌, String, ◌≡◌, ◌⊎◌, inl, inr, refl, Option, none, some, List,
  [], ◌∷◌, length, max, all, sorted, insert_sorted, str_leb, length-sorted, length-append,
  append-nil, arith, ◌∙◌, ap, sym, subst, true,
}
use native.Mathlib.Nat.{suc-mul, zero-mul}
use smart_bench.Sharding.Plan.Text.{PathText}
use smart_bench.Sharding.Plan.Build.{
  Shard, ShardPlan, Groups, drop, chunks_of, chunk_count, normalized, group_files, merge_loop,
  number_chunks, shards_of_chunks, shards_of, build_shard_plan, by_name,
}
use smart_bench.Sharding.Plan.Counts.{merge_loop_stops}
use smart_bench.Sharding.Plan.Chunks.{
  plan_files, is_bounded, all_shards_bounded, plan_files-shards_of_chunks, concat-chunks_of,
}
use smart_bench.Sharding.Plan.Keeps.{some_injective}

length-number_chunks :
    (pt : PathText) (g : String) (i : ℕ) (cs : List (List String))
    → length (number_chunks pt g i cs) ≡ length cs
unfolding number_chunks
length-number_chunks pt g i [] = refl
length-number_chunks pt g i (c ∷ cs) = ap suc (length-number_chunks pt g (i + 1) cs)

length-shards_of_chunks :
    (pt : PathText) (g : String) (cs : List (List String))
    → length (shards_of_chunks pt g cs) ≡ length cs
unfolding shards_of_chunks
length-shards_of_chunks pt g [] = refl
length-shards_of_chunks pt g (c ∷ []) = refl
length-shards_of_chunks pt g (c ∷ d ∷ cs) = length-number_chunks pt g 0 (c ∷ d ∷ cs)

length-drop-eq : (n : ℕ) (xs : List String) → length (drop n xs) ≡ length xs - n
length-drop-eq zero xs = omega arith
length-drop-eq (suc n) [] = omega arith
length-drop-eq (suc n) (x ∷ xs) = omega (arith, length-drop-eq n xs)

-- The number of chunks depends on the number of files only.
length-chunks_of :
    (n m : ℕ) (xs ys : List String)
    → length xs ≡ length ys
    → length (chunks_of n m xs) ≡ length (chunks_of n m ys)
unfolding chunks_of
length-chunks_of zero m xs ys e = refl
length-chunks_of (suc n) m [] [] e = refl
length-chunks_of (suc n) m [] (y ∷ ys) e = ground arith
length-chunks_of (suc n) m (x ∷ xs) [] e = ground arith
length-chunks_of (suc n) m (x ∷ xs) (y ∷ ys) e = ap suc (
    length-chunks_of n m (drop m (x ∷ xs)) (drop m (y ∷ ys))
      (length-drop-eq m (x ∷ xs) ∙ (ap (λ k. k - m) e ∙ sym (length-drop-eq m (y ∷ ys)))))

length-shards_of :
    (pt : PathText) (m : ℕ) (d : Groups) → length (shards_of pt m d) ≡ chunk_count m d
unfolding shards_of chunk_count
length-shards_of pt m [] = refl
length-shards_of pt m ((g, files) ∷ d) = omega (
  arith,
  length-append (shards_of_chunks pt g (chunks_of (length files) m (sorted str_leb files)))
      (shards_of pt m d),
  length-shards_of_chunks pt g (chunks_of (length files) m (sorted str_leb files)),
  length-chunks_of (length files) m (sorted str_leb files) files (length-sorted str_leb files),
  length-shards_of pt m d,
)

chunk_count-insert :
    (m : ℕ) (g : String × List String) (d : Groups)
    → chunk_count m (insert_sorted by_name g d) ≡ chunk_count m (g ∷ d)
unfolding chunk_count insert_sorted
chunk_count-insert m g [] = refl
chunk_count-insert m g (h ∷ d) = ground (arith, chunk_count-insert m g d)

chunk_count-sorted : (m : ℕ) (d : Groups) → chunk_count m (sorted by_name d) ≡ chunk_count m d
unfolding chunk_count sorted
chunk_count-sorted m [] = refl
chunk_count-sorted m (g ∷ d) =
    chunk_count-insert m g (sorted by_name d) ∙ ground (arith, chunk_count-sorted m d)

-- One more full chunk.
full_step : (l n m : ℕ) → l * suc m < (n - m) + suc m → suc l * suc m < suc n + suc m
full_step zero n m h = omega (arith, zero-mul (suc m), suc-mul zero (suc m))
full_step (suc l) n m h = omega (arith, suc-mul l (suc m), suc-mul (suc l) (suc m))

-- All chunks but the last are full.
chunks_of-full :
    (n m : ℕ) (xs : List String) → length (chunks_of n (suc m) xs) * suc m < length xs + suc m
unfolding chunks_of
chunks_of-full zero m xs = omega arith
chunks_of-full (suc n) m [] = omega arith
chunks_of-full (suc n) m (x ∷ xs) =
    full_step (length (chunks_of n (suc m) (drop m xs))) (length xs) m (
      subst (λ k. length (chunks_of n (suc m) (drop m xs)) * suc m < k + suc m)
        (length-drop-eq m xs) (chunks_of-full n m (drop m xs)))

bounded_total :
    (m : ℕ) (ss : List Shard)
    → all (is_bounded m) ss ≡ true
    → length (plan_files ss) ≤ length ss * m
bounded_total m [] h = omega arith
bounded_total m (s ∷ ss) h =
    ground (arith, bounded_total m ss, length-append s.files (plan_files ss))

one_group_full :
    (pt : PathText) (m : ℕ) (d : Groups)
    → length d ≤ 1
    → length (shards_of pt (suc m) d) * suc m < length (plan_files (shards_of pt (suc m) d)) + suc m
unfolding shards_of
one_group_full pt m [] h = omega arith
one_group_full pt m ((g, files) ∷ []) h =
    let chunks = chunks_of (length files) (suc m) (sorted str_leb files) in
    let same =
      plan_files-shards_of_chunks pt g chunks
      ∙ concat-chunks_of (length files) m (sorted str_leb files)
          (omega (arith, length-sorted str_leb files)) in
    subst (λ ss. length ss * suc m < length (plan_files ss) + suc m)
      (sym (append-nil (shards_of_chunks pt g chunks)))
      (subst (λ k. k * suc m < length (plan_files (shards_of_chunks pt g chunks)) + suc m)
        (sym (length-shards_of_chunks pt g chunks))
        (subst (λ ps. length chunks * suc m < length ps + suc m) (sym same)
          (chunks_of-full (length files) m (sorted str_leb files))))
one_group_full pt m (g ∷ h ∷ d) k = ground arith

module _ (pt : PathText) (m cap : ℕ) where
  shards_sized :
      (d : Groups)
      → (chunk_count (suc m) d ≤ cap) ⊎ (length d ≤ 1)
      → (length (shards_of pt (suc m) (sorted by_name d)) ≤ cap)
        ⊎ (length (shards_of pt (suc m) (sorted by_name d)) * suc m
            < length (plan_files (shards_of pt (suc m) (sorted by_name d))) + suc m)
  shards_sized d (inl h) =
      inl (
        omega (arith, length-shards_of pt (suc m) (sorted by_name d), chunk_count-sorted (suc m) d))
  shards_sized d (inr h) =
      inr (one_group_full pt m (sorted by_name d) (omega (arith, length-sorted by_name d)))

-- A plan that is returned has at most as many shards as the cap, or is as small as its shards' bound allows: one
-- shard less could not hold its files. In either case its shards have room for all of its files.
pub plan_size :
    (pt : PathText) (fuel : ℕ) (files : List String) (max_files max_shards : ℕ) (plan : ShardPlan)
    → build_shard_plan pt fuel files max_files max_shards ≡ some plan
    → (length (plan_files plan.shards) ≤ length plan.shards * plan.max_files_per_shard)
      × ((length plan.shards ≤ max 1 max_shards)
          ⊎ (length plan.shards * plan.max_files_per_shard
              < length (plan_files plan.shards) + plan.max_files_per_shard))
unfolding build_shard_plan
plan_size pt fuel files max_files max_shards plan h =
    by_merged (max 1 max_files - 1) (max 1 max_files) (omega arith)
      (merge_loop (max 1 max_files) (max 1 max_shards) fuel
        (group_files pt [] (normalized pt files)))
      (λ merged e. merge_loop_stops (max 1 max_files) (max 1 max_shards) fuel _ merged e) h
  where
    IsSized : ShardPlan → Type 0
    IsSized s =
        (length (plan_files s.shards) ≤ length s.shards * s.max_files_per_shard)
        × ((length s.shards ≤ max 1 max_shards)
            ⊎ (length s.shards * s.max_files_per_shard
                < length (plan_files s.shards) + s.max_files_per_shard))

    by_merged :
        (m n : ℕ)
        → n ≡ suc m
        → (o : Option Groups)
        → ((merged : Groups)
            → o ≡ some merged
            → (chunk_count n merged ≤ max 1 max_shards) ⊎ (length merged ≤ 1))
        → (elim o [
          | none ↦ none
          | some merged ↦ some (record {
            shards = shards_of pt n (sorted by_name merged);
            total_files = length (normalized pt files);
            max_files_per_shard = n;
          })
        ])
          ≡ some plan
        → IsSized plan
    by_merged m n k none stops q = absurd (ground arith)
    by_merged m n k (some merged) stops q = subst IsSized (some_injective q) (
      bounded_total n (shards_of pt n (sorted by_name merged))
          (all_shards_bounded pt n (sorted by_name merged)),
      subst
          (λ i.
            ((length (shards_of pt i (sorted by_name merged)) ≤ max 1 max_shards)
              ⊎ (length (shards_of pt i (sorted by_name merged)) * i
                  < length (plan_files (shards_of pt i (sorted by_name merged))) + i)))
          (sym k)
          (shards_sized pt m (max 1 max_shards) merged (
            subst (λ i. (chunk_count i merged ≤ max 1 max_shards) ⊎ (length merged ≤ 1)) k
              (stops merged refl))),
    )
