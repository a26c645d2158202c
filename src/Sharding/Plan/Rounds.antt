-- ===== src/Sharding/Plan/Rounds.antt =====
-- How many rounds the loop that merges groups can take in smartbench/sharding/plan.py.
use smart_bench.Prelude.{
  ℕ, zero, suc, ◌+◌, ◌≤◌, String, ◌≡◌, ◌⊎◌, inl, inr, refl, Bool, true, false, Option, none, some,
  List, [], ◌∷◌, ◌++◌, ◌==◌, string_eq, length, ltb, unique, arith, Bool-cases, ◌∙◌, ap, sym, subst,
  beq→eq, max, sorted,
}
use smart_bench.Prelude.Dict
use smart_bench.Prelude.Dict.{Dict}
use smart_bench.Sharding.Plan.Text.{PathText, group_key}
use smart_bench.Sharding.Plan.Build.{
  Groups, ShardPlan, chunk_count, smallest, remove, extend, carry, merge_loop, misc, group_files,
  normalized, shards_of, by_name, build_shard_plan,
}
use smart_bench.Sharding.Plan.Moves.{
  length-insert, has_key-remove, length-remove, unique-remove, unique-insert, has_key-smallest,
  carry_last, carry_other, carry_new, has_key-other,
}

module _ (m c : ℕ) where
  -- The loop ends within the rounds, or never.
  abbrev pub Decided : ℕ → Groups → Type 0
  Decided n d =
      ((merged : Groups) × (merge_loop m c n d ≡ some merged))
      ⊎ ((fuel : ℕ) → merge_loop m c fuel d ≡ none)

  step-Decided :
      (n : ℕ) (g : String × List String) (d : Groups)
      → Decided n (carry (g ∷ d) (smallest g d))
      → Decided (suc n) (g ∷ d)
  unfolding merge_loop
  step-Decided n g [] h = inl (g ∷ [], refl)
  step-Decided n g (k ∷ d) h = by_test (ltb c (chunk_count m (g ∷ k ∷ d))) refl h
    where
      stuck :
          ltb c (chunk_count m (g ∷ k ∷ d)) ≡ true
          → ((fuel : ℕ) → merge_loop m c fuel (carry (g ∷ k ∷ d) (smallest g (k ∷ d))) ≡ none)
          → (fuel : ℕ) → merge_loop m c fuel (g ∷ k ∷ d) ≡ none
      stuck e never zero = rw (merge_loop, e) refl
      stuck e never (suc fuel) = rw (merge_loop, e) (never fuel)

      by_test :
          (b : Bool)
          → ltb c (chunk_count m (g ∷ k ∷ d)) ≡ b
          → Decided n (carry (g ∷ k ∷ d) (smallest g (k ∷ d)))
          → Decided (suc n) (g ∷ k ∷ d)
      by_test false e h = inl (g ∷ k ∷ d, rw (merge_loop, e) refl)
      by_test true e (inl r) = inl (r.0, rw (merge_loop, e) r.1)
      by_test true e (inr never) = inr (stuck e never)

  -- A round that changes nothing.
  same-Decided :
      (n : ℕ) (g : String × List String) (d : Groups)
      → carry (g ∷ d) (smallest g d) ≡ g ∷ d
      → Decided n (g ∷ d)
  unfolding merge_loop
  same-Decided n g [] h = inl (g ∷ [], refl)
  same-Decided n g (k ∷ d) h = by_test (ltb c (chunk_count m (g ∷ k ∷ d))) refl n
    where
      by_test : (b : Bool) → ltb c (chunk_count m (g ∷ k ∷ d)) ≡ b → (n : ℕ) → Decided n (g ∷ k ∷ d)
      by_test false e zero = inl (g ∷ k ∷ d, rw (merge_loop, e) refl)
      by_test false e (suc n) = inl (g ∷ k ∷ d, rw (merge_loop, e) refl)
      by_test true e n = inr (λ fuel. never fuel)
        where
          never : (fuel : ℕ) → merge_loop m c fuel (g ∷ k ∷ d) ≡ none
          never zero = rw (merge_loop, e) refl
          never (suc fuel) = rw (merge_loop, e) (ap (merge_loop m c fuel) h ∙ never fuel)

  -- With `misc` last, a round takes out another group or changes nothing.
  last_misc-Decided :
      (n : ℕ) (d : Groups) (v : List String)
      → Dict.has_key d misc ≡ false
      → length d ≤ n
      → Decided n (d ++ (misc, v) ∷ [])
  unfolding merge_loop carry extend
  last_misc-Decided n [] v h l = inl ((misc, v) ∷ [], refl)
  last_misc-Decided zero (g ∷ d) v h l = absurd (ground arith)
  last_misc-Decided (suc n) (g ∷ d) v h l =
      by_group (λ f w k j. last_misc-Decided n f w k j) (Bool-cases (s == misc))
    where
      s : String
      s = smallest g (d ++ (misc, v) ∷ [])

      by_group :
          ((f : Groups) (w : List String)
            → Dict.has_key f misc ≡ false
            → length f ≤ n
            → Decided n (f ++ (misc, w) ∷ []))
          → (s == misc ≡ true) ⊎ (s == misc ≡ false)
          → Decided (suc n) ((g ∷ d) ++ (misc, v) ∷ [])
      by_group rest (inl e) =
          same-Decided (suc n) g (d ++ (misc, v) ∷ [])
            (ap (carry ((g ∷ d) ++ (misc, v) ∷ [])) (beq→eq s misc e) ∙ carry_last (g ∷ d) v h)
      by_group rest (inr e) =
          let known = has_key-other (g ∷ d) v s (has_key-smallest g (d ++ (misc, v) ∷ [])) e in
          step-Decided n g (d ++ (misc, v) ∷ []) (
            subst (Decided n) (sym (carry_other (g ∷ d) v s h known)) (
              rest (remove (g ∷ d) s) _ (has_key-remove (g ∷ d) s misc h)
                (omega (arith, length-remove (g ∷ d) s known))))

  -- As many rounds as there are groups decide the loop.
  groups-Decided : (n : ℕ) (d : Groups) → unique (Dict.keys d) ≡ true → length d ≤ n → Decided n d
  unfolding merge_loop carry extend
  groups-Decided n [] u l = inl ([], refl)
  groups-Decided zero (g ∷ d) u l = absurd (ground arith)
  groups-Decided (suc n) (g ∷ d) u l = step-Decided n g d (
      by_left (λ f k j. groups-Decided n f k j)
        (Bool-cases (Dict.has_key (remove (g ∷ d) (smallest g d)) misc)))
    where
      s : String
      s = smallest g d

      by_left :
          ((f : Groups) → unique (Dict.keys f) ≡ true → length f ≤ n → Decided n f)
          → (Dict.has_key (remove (g ∷ d) s) misc ≡ true)
            ⊎ (Dict.has_key (remove (g ∷ d) s) misc ≡ false)
          → Decided n (carry (g ∷ d) s)
      by_left rest (inl e) =
          rest (carry (g ∷ d) s)
            (unique-insert (remove (g ∷ d) s) misc _ (unique-remove (g ∷ d) s u))
            (ground (
              arith,
              length-insert (remove (g ∷ d) s) misc
                  (Dict.get_or (remove (g ∷ d) s) misc [] ++ Dict.get_or (g ∷ d) s []),
              length-remove (g ∷ d) s (has_key-smallest g d),
            ))
      by_left rest (inr e) = subst (Decided n) (sym (carry_new (g ∷ d) s e)) (
          last_misc-Decided n (remove (g ∷ d) s) _ e
            (omega (arith, length-remove (g ∷ d) s (has_key-smallest g d))))

unique-group_files :
    (pt : PathText) (d : Groups) (files : List String)
    → unique (Dict.keys d) ≡ true
    → unique (Dict.keys (group_files pt d files)) ≡ true
unfolding group_files extend
unique-group_files pt d [] u = u
unique-group_files pt d (f ∷ files) u =
    unique-group_files pt (extend d (group_key f) (f ∷ [])) files
      (unique-insert d (group_key f) _ u)

length-group_files :
    (pt : PathText) (d : Groups) (files : List String)
    → length (group_files pt d files) ≤ length d + length files
unfolding group_files extend
length-group_files pt d [] = omega arith
length-group_files pt d (f ∷ files) = ground (
  arith,
  length-group_files pt (extend d (group_key f) (f ∷ [])) files,
  length-insert d (group_key f) (Dict.get_or d (group_key f) [] ++ f ∷ []),
)

-- The planning of shards is decided after as many rounds of merging as there are paths to plan: it returns a plan
-- within them, or returns none however many rounds it is given, which is to say that the loop never ends.
pub plan_decided :
    (pt : PathText) (fuel : ℕ) (files : List String) (max_files max_shards : ℕ)
    → length (normalized pt files) ≤ fuel
    → ((plan : ShardPlan) × (build_shard_plan pt fuel files max_files max_shards ≡ some plan))
      ⊎ ((rounds : ℕ) → build_shard_plan pt rounds files max_files max_shards ≡ none)
unfolding build_shard_plan
plan_decided pt fuel files max_files max_shards l = by_loop (
    groups-Decided (max 1 max_files) (max 1 max_shards) fuel
      (group_files pt [] (normalized pt files))
      (unique-group_files pt [] (normalized pt files) refl)
      (omega (arith, length-group_files pt [] (normalized pt files))))
  where
    plan_of : Option Groups → Option ShardPlan
    plan_of o = elim o [
      | none ↦ none
      | some merged ↦ some (record {
        shards = shards_of pt (max 1 max_files) (sorted by_name merged);
        total_files = length (normalized pt files);
        max_files_per_shard = max 1 max_files;
      })
    ]

    by_loop :
        Decided (max 1 max_files) (max 1 max_shards) fuel (group_files pt [] (normalized pt files))
        → ((plan : ShardPlan) × (build_shard_plan pt fuel files max_files max_shards ≡ some plan))
          ⊎ ((rounds : ℕ) → build_shard_plan pt rounds files max_files max_shards ≡ none)
    by_loop (inl r) = inl (_, ap plan_of r.1)
    by_loop (inr never) = inr (λ rounds. ap plan_of (never rounds))
