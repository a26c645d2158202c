-- ===== src/Sharding/Plan/Counts.antt =====
-- How often a file occurs: grouping and merging groups lose and add none.
use smart_bench.Prelude.{
  ℕ, zero, suc, ◌+◌, ◌≤◌, String, ◌≡◌, ◌⊎◌, inl, inr, refl, Bool, true, false, some, List, [], ◌∷◌,
  ◌++◌, ◌==◌, string_eq, length, ltb, sorted, insert_sorted, str_leb, arith, Bool-cases, ◌∙◌,
  if◌then◌else◌,
}
use smart_bench.Prelude.Dict
use smart_bench.Prelude.Dict.{Dict}
use smart_bench.Sharding.Plan.Text.{PathText, group_key}
use smart_bench.Sharding.Plan.Build.{
  Groups, extend, group_files, chunk_count, smallest, remove, carry, merge_loop, misc,
}

-- How often a file occurs.
abbrev pub count : String → List String → ℕ
count p [] = 0
count p (x ∷ xs) = if x == p then suc (count p xs) else count p xs

pub count-append : (p : String) (xs ys : List String) → count p (xs ++ ys) ≡ count p xs + count p ys
count-append p [] ys = omega arith
count-append p (x ∷ xs) ys = ground (arith, count-append p xs ys)

pub count-insert_sorted :
    (p x : String) (xs : List String) → count p (insert_sorted str_leb x xs) ≡ count p (x ∷ xs)
unfolding insert_sorted
count-insert_sorted p x [] = refl
count-insert_sorted p x (y ∷ ys) = ground (arith, count-insert_sorted p x ys)

pub count-sorted : (p : String) (xs : List String) → count p (sorted str_leb xs) ≡ count p xs
unfolding sorted
count-sorted p [] = refl
count-sorted p (x ∷ xs) =
    count-insert_sorted p x (sorted str_leb xs) ∙ ground (arith, count-sorted p xs)

abbrev pub group_list : Groups → List String
group_list [] = []
group_list ((g, files) ∷ groups) = files ++ group_list groups

pub count-extend :
    (p : String) (d : Groups) (k : String) (files : List String)
    → count p (group_list (extend d k files)) ≡ count p (group_list d) + count p files
unfolding extend Dict.insert Dict.get_or Dict.get
count-extend p [] k files = count-append p files [] ∙ omega arith
count-extend p ((j, v) ∷ d) k files = elim (Bool-cases (j == k)) [
  | inl e ↦ rw (e) ground (
    arith,
    count-append p (v ++ files) (group_list d),
    count-append p v files,
    count-append p v (group_list d),
  )
  | inr e ↦ rw (e) ground (
    arith,
    count-extend p d k files,
    count-append p v (group_list d),
    count-append p v (group_list (extend d k files)),
  )
]

pub count-remove :
    (p : String) (d : Groups) (k : String)
    → count p (group_list (remove d k)) + count p (Dict.get_or d k []) ≡ count p (group_list d)
unfolding remove Dict.get_or Dict.get
count-remove p [] k = refl
count-remove p ((j, v) ∷ d) k = elim (Bool-cases (j == k)) [
  | inl e ↦ rw (e) ground (arith, count-append p v (group_list d))
  | inr e ↦ rw (e) ground (
    arith,
    count-remove p d k,
    count-append p v (group_list d),
    count-append p v (group_list (remove d k)),
  )
]

pub count-carry :
    (p : String) (d : Groups) (name : String)
    → count p (group_list (carry d name)) ≡ count p (group_list d)
unfolding carry
count-carry p d name =
    count-extend p (remove d name) misc (Dict.get_or d name []) ∙ count-remove p d name

pub count-group_files :
    (pt : PathText) (p : String) (d : Groups) (files : List String)
    → count p (group_list (group_files pt d files)) ≡ count p (group_list d) + count p files
unfolding group_files
count-group_files pt p d [] = omega arith
count-group_files pt p d (f ∷ files) =
    count-group_files pt p (extend d (group_key f) (f ∷ [])) files
    ∙ ground (arith, count-extend p d (group_key f) (f ∷ []))

pub count-merge_loop :
    (p : String) (max_files shard_cap fuel : ℕ) (d merged : Groups)
    → merge_loop max_files shard_cap fuel d ≡ some merged
    → count p (group_list merged) ≡ count p (group_list d)
unfolding merge_loop
count-merge_loop p m c fuel [] merged h = ground arith
count-merge_loop p m c fuel (g ∷ []) merged h = ground arith
count-merge_loop p m c zero (g ∷ h ∷ d) merged e = ground arith
count-merge_loop p m c (suc fuel) (g ∷ h ∷ d) merged e =
    by_test (λ q. count-merge_loop p m c fuel (carry (g ∷ h ∷ d) (smallest g (h ∷ d))) merged q)
      (ltb c (chunk_count m (g ∷ h ∷ d))) e
  where
    by_test :
        (merge_loop m c fuel (carry (g ∷ h ∷ d) (smallest g (h ∷ d))) ≡ some merged
          → count p (group_list merged)
            ≡ count p (group_list (carry (g ∷ h ∷ d) (smallest g (h ∷ d)))))
        → (b : Bool)
        → (if b
            then merge_loop m c fuel (carry (g ∷ h ∷ d) (smallest g (h ∷ d)))
            else some (g ∷ h ∷ d))
          ≡ some merged
        → count p (group_list merged) ≡ count p (group_list (g ∷ h ∷ d))
    by_test next false q = ground arith
    by_test next true q = next q ∙ count-carry p (g ∷ h ∷ d) (smallest g (h ∷ d))

-- Where the loop may stop.
pub merge_loop_stops :
    (max_files shard_cap fuel : ℕ) (d merged : Groups)
    → merge_loop max_files shard_cap fuel d ≡ some merged
    → (chunk_count max_files merged ≤ shard_cap) ⊎ (length merged ≤ 1)
unfolding merge_loop
merge_loop_stops m c fuel [] merged h = inr (ground arith)
merge_loop_stops m c fuel (g ∷ []) merged h = inr (ground arith)
merge_loop_stops m c zero (g ∷ h ∷ d) merged e = inl (ground arith)
merge_loop_stops m c (suc fuel) (g ∷ h ∷ d) merged e =
    by_test (λ q. merge_loop_stops m c fuel (carry (g ∷ h ∷ d) (smallest g (h ∷ d))) merged q)
      (Bool-cases (ltb c (chunk_count m (g ∷ h ∷ d))))
  where
    by_test :
        (merge_loop m c fuel (carry (g ∷ h ∷ d) (smallest g (h ∷ d))) ≡ some merged
          → (chunk_count m merged ≤ c) ⊎ (length merged ≤ 1))
        → (ltb c (chunk_count m (g ∷ h ∷ d)) ≡ true) ⊎ (ltb c (chunk_count m (g ∷ h ∷ d)) ≡ false)
        → (chunk_count m merged ≤ c) ⊎ (length merged ≤ 1)
    by_test next (inl t) = next (ground arith)
    by_test next (inr t) = inl (ground arith)
