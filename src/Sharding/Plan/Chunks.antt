-- ===== src/Sharding/Plan/Chunks.antt =====
-- The shards of groups hold the groups' files, in chunks of bounded size.
use smart_bench.Prelude.{
  ℕ, zero, suc, ◌+◌, ◌≤◌, String, ◌≡◌, refl, Bool, true, ◌&&◌, List, [], ◌∷◌, ◌++◌, string_eq,
  length, leb, all, all-append, sorted, insert_sorted, length-sorted, contains, str_leb, arith, ◌∙◌,
  ap, if◌then◌else◌,
}
use smart_bench.Sharding.Plan.Text.{PathText}
use smart_bench.Icfg.Graph.{distinct, contains-distinct}
use smart_bench.Sharding.Plan.Build.{
  Shard, Groups, take, drop, chunks_of, number_chunks, shards_of_chunks, shards_of, by_name,
}
use smart_bench.Sharding.Plan.Counts.{count, count-append, count-sorted, group_list}

abbrev pub concat : List (List String) → List String
concat [] = []
concat (c ∷ cs) = c ++ concat cs

pub take-drop : (n : ℕ) (xs : List String) → take n xs ++ drop n xs ≡ xs
take-drop zero xs = refl
take-drop (suc n) [] = refl
take-drop (suc n) (x ∷ xs) = ap (λ ys. x ∷ ys) (take-drop n xs)

pub length-take : (n : ℕ) (xs : List String) → length (take n xs) ≤ n
length-take zero xs = omega arith
length-take (suc n) [] = omega arith
length-take (suc n) (x ∷ xs) = omega (arith, length-take n xs)

pub length-drop : (n : ℕ) (xs : List String) → length (drop n xs) ≤ length xs
length-drop zero xs = omega arith
length-drop (suc n) [] = omega arith
length-drop (suc n) (x ∷ xs) = omega (arith, length-drop n xs)

pub concat-chunks_of :
    (n m : ℕ) (xs : List String) → length xs ≤ n → concat (chunks_of n (suc m) xs) ≡ xs
unfolding chunks_of
concat-chunks_of zero m [] h = refl
concat-chunks_of zero m (x ∷ xs) h = ground arith
concat-chunks_of (suc n) m [] h = refl
concat-chunks_of (suc n) m (x ∷ xs) h =
    ap (λ ys. x ∷ (take m xs ++ ys))
      (concat-chunks_of n m (drop m xs) (omega (arith, length-drop m xs)))
    ∙ ap (λ ys. x ∷ ys) (take-drop m xs)

-- The files of the shards.
abbrev pub plan_files : List Shard → List String
plan_files [] = []
plan_files (s ∷ ss) = s.files ++ plan_files ss

pub plan_files-append :
    (p : String) (xs ys : List Shard)
    → count p (plan_files (xs ++ ys)) ≡ count p (plan_files xs) + count p (plan_files ys)
plan_files-append p [] ys = omega arith
plan_files-append p (x ∷ xs) ys = ground (
  arith,
  plan_files-append p xs ys,
  count-append p x.files (plan_files (xs ++ ys)),
  count-append p x.files (plan_files xs),
)

pub plan_files-number_chunks :
    (pt : PathText) (g : String) (i : ℕ) (cs : List (List String))
    → plan_files (number_chunks pt g i cs) ≡ concat cs
unfolding number_chunks
plan_files-number_chunks pt g i [] = refl
plan_files-number_chunks pt g i (c ∷ cs) =
    ap (λ ys. c ++ ys) (plan_files-number_chunks pt g (i + 1) cs)

pub plan_files-shards_of_chunks :
    (pt : PathText) (g : String) (cs : List (List String))
    → plan_files (shards_of_chunks pt g cs) ≡ concat cs
unfolding shards_of_chunks
plan_files-shards_of_chunks pt g [] = refl
plan_files-shards_of_chunks pt g (c ∷ []) = refl
plan_files-shards_of_chunks pt g (c ∷ d ∷ cs) = plan_files-number_chunks pt g 0 (c ∷ d ∷ cs)

-- Every shard is bounded.
abbrev pub is_bounded : ℕ → Shard → Bool
is_bounded m s = leb (length s.files) m

abbrev pub chunk_bounded : ℕ → List String → Bool
chunk_bounded m c = leb (length c) m

pub chunks_bounded : (n m : ℕ) (xs : List String) → all (chunk_bounded m) (chunks_of n m xs) ≡ true
unfolding chunks_of
chunks_bounded zero m xs = refl
chunks_bounded (suc n) m [] = refl
chunks_bounded (suc n) m (x ∷ xs) =
    ground (arith, length-take m (x ∷ xs), chunks_bounded n m (drop m (x ∷ xs)))

pub number_bounded :
    (pt : PathText) (g : String) (m i : ℕ) (cs : List (List String))
    → all (is_bounded m) (number_chunks pt g i cs) ≡ all (chunk_bounded m) cs
unfolding number_chunks
number_bounded pt g m i [] = refl
number_bounded pt g m i (c ∷ cs) =
    ap (λ b. chunk_bounded m c && b) (number_bounded pt g m (i + 1) cs)

pub shards_bounded :
    (pt : PathText) (g : String) (m : ℕ) (cs : List (List String))
    → all (is_bounded m) (shards_of_chunks pt g cs) ≡ all (chunk_bounded m) cs
unfolding shards_of_chunks
shards_bounded pt g m [] = refl
shards_bounded pt g m (c ∷ []) = refl
shards_bounded pt g m (c ∷ d ∷ cs) = number_bounded pt g m 0 (c ∷ d ∷ cs)

pub count-shards_of :
    (pt : PathText) (p : String) (m : ℕ) (d : Groups)
    → count p (plan_files (shards_of pt (suc m) d)) ≡ count p (group_list d)
unfolding shards_of
count-shards_of pt p m [] = refl
count-shards_of pt p m ((g, files) ∷ d) =
    plan_files-append p
      (shards_of_chunks pt g (chunks_of (length files) (suc m) (sorted str_leb files)))
      (shards_of pt (suc m) d)
    ∙ ground (arith, same, count-shards_of pt p m d, count-append p files (group_list d))
  where
    same :
        count p (
          plan_files
            (shards_of_chunks pt g (chunks_of (length files) (suc m) (sorted str_leb files))))
        ≡ count p files
    same =
        ap (count p) (
          plan_files-shards_of_chunks pt g (chunks_of (length files) (suc m) (sorted str_leb files))
          ∙ concat-chunks_of (length files) m (sorted str_leb files)
              (omega (arith, length-sorted str_leb files)))
        ∙ count-sorted p files

pub all_shards_bounded :
    (pt : PathText) (m : ℕ) (d : Groups) → all (is_bounded m) (shards_of pt m d) ≡ true
unfolding shards_of
all_shards_bounded pt m [] = refl
all_shards_bounded pt m ((g, files) ∷ d) =
    all-append (is_bounded m)
      (shards_of_chunks pt g (chunks_of (length files) m (sorted str_leb files))) (shards_of pt m d)
    ∙ ground (
      arith,
      shards_bounded pt g m (chunks_of (length files) m (sorted str_leb files)),
      chunks_bounded (length files) m (sorted str_leb files),
      all_shards_bounded pt m d,
    )

pub count-insert_by_name :
    (p : String) (g : String × List String) (d : Groups)
    → count p (group_list (insert_sorted by_name g d)) ≡ count p (group_list (g ∷ d))
unfolding insert_sorted
count-insert_by_name p g [] = refl
count-insert_by_name p (g, v) ((h, w) ∷ d) = ground (
  arith,
  count-insert_by_name p (g, v) d,
  count-append p v (w ++ group_list d),
  count-append p w (group_list d),
  count-append p v (group_list d),
  count-append p w (group_list (insert_sorted by_name (g, v) d)),
)

pub count-by_name :
    (p : String) (d : Groups) → count p (group_list (sorted by_name d)) ≡ count p (group_list d)
unfolding sorted
count-by_name p [] = refl
count-by_name p ((g, v) ∷ d) =
    count-insert_by_name p (g, v) (sorted by_name d)
    ∙ ground (
      arith,
      count-by_name p d,
      count-append p v (group_list d),
      count-append p v (group_list (sorted by_name d)),
    )

pub count-distinct :
    (p : String) (xs : List String) → count p (distinct xs) ≡ (if contains p xs then 1 else 0)
unfolding distinct
count-distinct p [] = refl
count-distinct p (x ∷ xs) = ground (
  arith,
  count-distinct p xs,
  string_eq.same_iff x p,
  string_eq.same_iff p x,
  contains-distinct x xs,
)
