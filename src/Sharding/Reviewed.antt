-- ===== src/Sharding/Reviewed.antt =====
-- The outcomes that the runner of smartbench/sharding/runner.py returns.
use smart_bench.Prelude.{
  ℕ, suc, ◌+◌, ◌≡◌, ◌↔◌, ◌⊎◌, inl, inr, refl, sym, ap, subst, ◌∙◌, Bool, true, false, Option, List,
  [], ◌∷◌, ◌++◌, eqb, length, map, sorted, if◌then◌else◌, arith, IsIn, here, there, IsIn-head,
  IsIn-append, IsIn-left, IsIn-right, IsIn-map, IsIn-map_back, IsIn-sorted, IsIn-sorted_back,
  length-sorted, length-append, length-map,
}
use smart_bench.Sharding.Plan.{Shard, ShardPlan}
use smart_bench.Sharding.Merge.Combine.{ShardOutcome, by_shard}
use smart_bench.Sharding.Runner.{
  Ran, run_one, skipped, past_deadline, run_in_turn, dispatched, submit, worker_count,
  run_sharded_review,
}

-- Every outcome is a shard's, skipped or run; every shard has one; there are as many.
pub record IsReviewed (run : Shard → Ran) (shards : List Shard) (outcomes : List ShardOutcome)
    : Type 0 where
  pub own :
      (o : ShardOutcome)
      → IsIn o outcomes
      → (s : Shard) × IsIn s shards × ((o ≡ skipped s) ⊎ (o ≡ run_one run s))
  pub covered :
      (s : Shard) → IsIn s shards → IsIn (skipped s) outcomes ⊎ IsIn (run_one run s) outcomes
  pub counted : length outcomes ≡ length shards

module _ (run : Shard → Ran) where
  IsReviewed-cons :
      (b : Bool) (s : Shard) (ss : List Shard) (os : List ShardOutcome)
      → IsReviewed run ss os
      → IsReviewed run (s ∷ ss) ((if b then skipped s else run_one run s) ∷ os)
  IsReviewed-cons b s ss os h = record {
    own = λ o m. own o (IsIn-head m);
    covered = λ r m. covered r (IsIn-head m);
    counted = ap suc h.counted;
  }
    where
      first :
          (c : Bool) (o : ShardOutcome)
          → o ≡ (if c then skipped s else run_one run s)
          → (o ≡ skipped s) ⊎ (o ≡ run_one run s)
      first true o e = inl e
      first false o e = inr e

      own :
          (o : ShardOutcome)
          → (o ≡ (if b then skipped s else run_one run s)) ⊎ IsIn o os
          → (r : Shard) × IsIn r (s ∷ ss) × ((o ≡ skipped r) ⊎ (o ≡ run_one run r))
      own o (inl e) = (s, here, first b o e)
      own o (inr m) = let (r, i, e) = h.own o m in (r, there i, e)

      placed :
          (c : Bool)
          → IsIn (skipped s) ((if c then skipped s else run_one run s) ∷ os)
            ⊎ IsIn (run_one run s) ((if c then skipped s else run_one run s) ∷ os)
      placed true = inl here
      placed false = inr here

      covered :
          (r : Shard)
          → (r ≡ s) ⊎ IsIn r ss
          → IsIn (skipped r) ((if b then skipped s else run_one run s) ∷ os)
            ⊎ IsIn (run_one run r) ((if b then skipped s else run_one run s) ∷ os)
      covered r (inl e) =
          subst
            (λ x.
              IsIn (skipped x) ((if b then skipped s else run_one run s) ∷ os)
              ⊎ IsIn (run_one run x) ((if b then skipped s else run_one run s) ∷ os))
            (sym e) (placed b)
      covered r (inr m) = elim (h.covered r m) [ inl i ↦ inl (there i) | inr i ↦ inr (there i) ]

  in_turn-IsReviewed :
      (past : ℕ → Bool) (n : ℕ) (ss : List Shard) → IsReviewed run ss (run_in_turn past run n ss)
  unfolding run_in_turn
  in_turn-IsReviewed past n [] = record {
    own = λ o m. elim m [ ];
    covered = λ s m. elim m [ ];
    counted = refl;
  }
  in_turn-IsReviewed past n (s ∷ ss) =
      IsReviewed-cons (past n) s ss (run_in_turn past run (suc n) ss)
        (in_turn-IsReviewed past (suc n) ss)

  -- What is skipped and what is submitted are the shards.
  pub record IsSplit (ss : List Shard) (os : List ShardOutcome) (fs : List Shard) : Type 0 where
    pub own : (o : ShardOutcome) → IsIn o os → (s : Shard) × IsIn s ss × (o ≡ skipped s)
    pub sent : (s : Shard) → IsIn s fs → IsIn s ss
    pub all : (s : Shard) → IsIn s ss → IsIn (skipped s) os ⊎ IsIn s fs
    pub counted : length os + length fs ≡ length ss

  IsSplit-cons :
      (b : Bool) (s : Shard) (ss : List Shard) (os : List ShardOutcome) (fs : List Shard)
      → IsSplit ss os fs
      → IsSplit (s ∷ ss) (dispatched b s os fs).0 (dispatched b s os fs).1
  IsSplit-cons true s ss os fs h = record {
    own = λ o m. elim (IsIn-head m) [
      | inl e ↦ (s, here, e)
      | inr k ↦ let (r, i, e) = h.own o k in (r, there i, e)
    ];
    sent = λ r m. there (h.sent r m);
    all = λ r m. elim (IsIn-head m) [
      | inl e ↦ inl (subst (λ x. IsIn (skipped x) (skipped s ∷ os)) (sym e) here)
      | inr k ↦ elim (h.all r k) [ inl i ↦ inl (there i) | inr i ↦ inr i ]
    ];
    counted = omega (arith, h.counted);
  }
  IsSplit-cons false s ss os fs h = record {
    own = λ o m. let (r, i, e) = h.own o m in (r, there i, e);
    sent = λ r m. elim (IsIn-head m) [
      | inl e ↦ subst (λ x. IsIn x (s ∷ ss)) (sym e) here
      | inr k ↦ there (h.sent r k)
    ];
    all = λ r m. elim (IsIn-head m) [
      | inl e ↦ inr (subst (λ x. IsIn x (s ∷ fs)) (sym e) here)
      | inr k ↦ elim (h.all r k) [ inl i ↦ inl i | inr i ↦ inr (there i) ]
    ];
    counted = omega (arith, h.counted);
  }

  submit-IsSplit :
      (past : ℕ → Bool) (n : ℕ) (ss : List Shard)
      → IsSplit ss (submit past n ss).0 (submit past n ss).1
  unfolding submit
  submit-IsSplit past n [] = record {
    own = λ o m. elim m [ ];
    sent = λ s m. m;
    all = λ s m. inr m;
    counted = refl;
  }
  submit-IsSplit past n (s ∷ ss) =
      let (os, fs) = submit past (suc n) ss in
      IsSplit-cons (past n) s ss os fs (submit-IsSplit past (suc n) ss)

-- The pool ends the debates of exactly the submitted shards.
pub record IsArrival (arrive : List Shard → List Shard) : Type 0 where
  pub same : (ss : List Shard) (s : Shard) → IsIn s (arrive ss) ↔ IsIn s ss
  pub counted : (ss : List Shard) → length (arrive ss) ≡ length ss

module _ (run : Shard → Ran) (arrive : List Shard → List Shard) (a : IsArrival arrive) where
  pool-IsReviewed :
      (ss : List Shard) (os : List ShardOutcome) (fs : List Shard)
      → IsSplit run ss os fs
      → IsReviewed run ss (os ++ map (run_one run) (arrive fs))
  pool-IsReviewed ss os fs h = record {
    own = λ o m. elim (IsIn-append os (map (run_one run) (arrive fs)) m) [
      | inl k ↦ let (s, i, e) = h.own o k in (s, i, inl e)
      | inr k ↦
          let (s, i, e) = IsIn-map_back (run_one run) (arrive fs) k in
          (s, h.sent s ((a.same fs s).0 i), inr e)
    ];
    covered = λ s m. elim (h.all s m) [
      | inl i ↦ inl (IsIn-left (map (run_one run) (arrive fs)) i)
      | inr i ↦ inr (IsIn-right os (IsIn-map (run_one run) ((a.same fs s).1 i)))
    ];
    counted = omega (
      arith,
      length-append os (map (run_one run) (arrive fs)),
      length-map (run_one run) (arrive fs),
      a.counted fs,
      h.counted,
    );
  }

sorted-IsReviewed :
    (run : Shard → Ran) (ss : List Shard) (os : List ShardOutcome)
    → IsReviewed run ss os
    → IsReviewed run ss (sorted by_shard os)
sorted-IsReviewed run ss os h = record {
  own = λ o m. h.own o (IsIn-sorted by_shard m);
  covered = λ s m. elim (h.covered s m) [
    | inl i ↦ inl (IsIn-sorted_back by_shard i)
    | inr i ↦ inr (IsIn-sorted_back by_shard i)
  ];
  counted = length-sorted by_shard os ∙ h.counted;
}

-- Whatever the clock, the deadline, the number of workers and the order in which debates end, every
-- outcome is that of a shard of the plan, skipped or run, every shard of the plan has one, and there are
-- as many outcomes as shards: no debate's failure loses another's result.
pub run_sharded_review-IsReviewed :
    (clock : ℕ → ℕ) (arrive : List Shard → List Shard) (plan : ShardPlan) (run : Shard → Ran)
    (max_workers : ℕ) (deadline : Option ℕ)
    → IsArrival arrive
    → IsReviewed run plan.shards (run_sharded_review clock arrive plan run max_workers deadline)
unfolding run_sharded_review
run_sharded_review-IsReviewed clock arrive plan run max_workers deadline a =
    by_workers (eqb (worker_count plan max_workers) 1)
  where
    by_workers :
        (one : Bool)
        → IsReviewed run plan.shards (
            if one
            then sorted by_shard (run_in_turn (past_deadline clock deadline) run 0 plan.shards)
            else sorted by_shard (
                (submit (past_deadline clock deadline) 0 plan.shards).0
                ++ map
                    (run_one run)
                    (arrive (submit (past_deadline clock deadline) 0 plan.shards).1)))
    by_workers true =
        sorted-IsReviewed run plan.shards _
          (in_turn-IsReviewed run (past_deadline clock deadline) 0 plan.shards)
    by_workers false = sorted-IsReviewed run plan.shards _ (
        pool-IsReviewed run arrive a plan.shards _ _
          (submit-IsSplit run (past_deadline clock deadline) 0 plan.shards))
