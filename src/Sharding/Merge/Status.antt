-- ===== src/Sharding/Merge/Status.antt =====
-- The status that `merge_shard_results` (smartbench/sharding/merge.py) returns.
use smart_bench.Prelude.{
  String, ◌≡◌, ◌≢◌, ◌↔◌, refl, subst, Bool, true, false, ◌&&◌, List, [], ◌∷◌, string_eq, filter,
  sorted, length, length-sorted, if◌then◌else◌, arith, IsIn, here, IsIn-filter, IsIn-filtered,
  IsIn-sorted, IsIn-sorted_back, all_iff, iff_trans, ap, and_left, and_right, and_intro,
}
use smart_bench.Sharding.Merge.Keys.{ShardText}
use smart_bench.Sharding.Merge.Combine.{
  ShardOutcome, merge_shard_results, by_shard, is_completed, agreed, some_and_all,
}

-- There is a shard, and every one's outcome satisfies `P`.
abbrev pub Everywhere : (ShardOutcome → Type 0) → List ShardOutcome → Type 0
Everywhere P outcomes = (outcomes ≢ []) × ((o : ShardOutcome) → IsIn o outcomes → P o)

some_and_all_iff :
    (p : ShardOutcome → Bool) (os : List ShardOutcome)
    → (some_and_all p os ≡ true) ↔ Everywhere (λ o. p o ≡ true) os
some_and_all_iff p [] = (λ h. absurd (cc), λ (n, f). absurd (n refl))
some_and_all_iff p (o ∷ os) =
    (λ h. (λ e. cc, (all_iff p (o ∷ os)).0 h), λ (n, f). (all_iff p (o ∷ os)).1 f)

sorted_empty : (os : List ShardOutcome) → sorted by_shard os ≡ [] → os ≡ []
sorted_empty [] e = refl
sorted_empty (o ∷ os) e = absurd (omega (arith, length-sorted by_shard (o ∷ os), ap length e))

Everywhere-sorted :
    (P : ShardOutcome → Type 0) (os : List ShardOutcome)
    → Everywhere P (sorted by_shard os) ↔ Everywhere P os
unfolding sorted
Everywhere-sorted P os = (
  λ (n, f). (λ e. n (ap (sorted by_shard) e), λ o m. f o (IsIn-sorted_back by_shard m)),
  λ (n, f). (λ e. n (sorted_empty os e), λ o m. f o (IsIn-sorted by_shard m)),
)

done_iff :
    (os : List ShardOutcome)
    → (some_and_all is_completed (sorted by_shard os) ≡ true)
      ↔ Everywhere (λ o. o.status ≡ "completed") os
done_iff os = (
  λ h.
      let (n, f) = (Everywhere-sorted _ os).0 ((some_and_all_iff is_completed _).0 h) in
      (n, λ o m. (string_eq.same_iff o.status "completed").0 (f o m)),
  λ (n, f).
      (some_and_all_iff is_completed _).1 (
        (Everywhere-sorted _ os).1 (n, λ o m. (string_eq.same_iff o.status "completed").1 (f o m))),
)

abbrev status_text : Bool → String
status_text b = if b then "completed" else "partial"

status_iff : (b : Bool) → (status_text b ≡ "completed") ↔ (b ≡ true)
status_iff true = (λ h. refl, λ h. refl)
status_iff false =
    (λ h. absurd (cc ((string_eq.same_iff "partial" "completed").1 h)), λ h. absurd (cc))

kept :
    (os : List ShardOutcome)
    → os ≢ []
    → ((o : ShardOutcome) → IsIn o os → is_completed o ≡ true)
    → filter is_completed os ≢ []
kept [] n f e = n refl
kept (o ∷ os) n f e =
    elim (subst (IsIn o) e (IsIn-filtered is_completed (here {xs = os}) (f o here))) [ ]

agreed_iff :
    (os : List ShardOutcome)
    → ((some_and_all (λ (o : ShardOutcome). agreed o.result) (filter is_completed os)
          && some_and_all is_completed os)
        ≡ true)
      ↔ Everywhere (λ o. (o.status ≡ "completed") × (agreed o.result ≡ true)) os
agreed_iff os = (to, from)
  where
    done :
        ((o : ShardOutcome) → IsIn o os → (o.status ≡ "completed") × (agreed o.result ≡ true))
        → (o : ShardOutcome) → IsIn o os
        → is_completed o ≡ true
    done f o i = (string_eq.same_iff o.status "completed").1 (f o i).0

    to :
        (some_and_all (λ (o : ShardOutcome). agreed o.result) (filter is_completed os)
            && some_and_all is_completed os)
          ≡ true
        → Everywhere (λ o. (o.status ≡ "completed") × (agreed o.result ≡ true)) os
    to h =
        let (n, f) = (some_and_all_iff is_completed os).0 (
          and_right (some_and_all (λ (o : ShardOutcome). agreed o.result) (filter is_completed os))
            (some_and_all is_completed os) h) in
        let (m, g) =
          (some_and_all_iff (λ (o : ShardOutcome). agreed o.result) (filter is_completed os)).0 (
            and_left (some_and_all (λ (o : ShardOutcome). agreed o.result) (filter is_completed os))
              (some_and_all is_completed os) h) in
        (
          n,
          λ o i. (
            (string_eq.same_iff o.status "completed").0 (f o i),
            g o (IsIn-filtered is_completed i (f o i)),
          ),
        )

    from :
        Everywhere (λ o. (o.status ≡ "completed") × (agreed o.result ≡ true)) os
        → (some_and_all (λ (o : ShardOutcome). agreed o.result) (filter is_completed os)
            && some_and_all is_completed os)
          ≡ true
    from (n, f) =
        and_intro
          ((some_and_all_iff _ (filter is_completed os)).1
            (kept os n (done f), λ o i. (f o (IsIn-filter is_completed os i).0).1))
          ((some_and_all_iff is_completed os).1 (n, done f))

-- The merged result is completed exactly if there is a shard and every shard is completed, and it is
-- agreed exactly if, moreover, every shard's debate reached a consensus.
pub merge_shard_results-status :
    (t : ShardText) (outcomes : List ShardOutcome)
    → (((merge_shard_results t outcomes).review_status ≡ "completed")
        ↔ Everywhere (λ o. o.status ≡ "completed") outcomes)
      × (((merge_shard_results t outcomes).consensus_reached ≡ true)
          ↔ Everywhere (λ o. (o.status ≡ "completed") × (agreed o.result ≡ true)) outcomes)
unfolding merge_shard_results
merge_shard_results-status t outcomes = (
  iff_trans (status_iff (some_and_all is_completed (sorted by_shard outcomes))) (done_iff outcomes),
  iff_trans (agreed_iff (sorted by_shard outcomes)) (Everywhere-sorted _ outcomes),
)
