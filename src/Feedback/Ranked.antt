-- ===== src/Feedback/Ranked.antt =====
-- The ranking that `rank_findings` (smartbench/feedback/policy.py) returns.
use smart_bench.Prelude.{
  ℕ, suc, String, ◌≡◌, ◌≢◌, refl, sym, ap, subst, ◌∙◌, List, [], ◌∷◌, string_eq, pair_eq, length,
  map, sorted, arith, IsIn, IsIn-map, IsIn-map_back, IsIn-sorted, IsIn-sorted_back, length-map,
  length-sorted,
}
use smart_bench.Prelude.Dict.{Dict}
use smart_bench.Ir.Values.{Value, Fields, end, field}
use smart_bench.Debate.Gate.{lookup}
use smart_bench.Code.Graph.{set_field}
use smart_bench.Feedback.Events.{FeedbackEvent, Key, Prior, build_priors}
use smart_bench.Feedback.Rank.{
  FloatText, Ranked, rank_from, annotated, rank_order, Ranking, rank_findings,
}

lookup-set_other :
    (fs : Fields) (k j : String) (v : Value) → j ≢ k → lookup (set_field fs k v) j ≡ lookup fs j
unfolding lookup set_field
lookup-set_other end k j v n = ground (arith, string_eq.same_iff k j)
lookup-set_other (field i w fs) k j v n = ground (
  arith,
  lookup-set_other fs k j v n,
  string_eq.same_iff i k,
  string_eq.same_iff i j,
  string_eq.same_iff k j,
)

module _ {F : Type 0} (t : FloatText F) (priors : Dict Key Prior) (default_score : F) where
  items-rank_from :
      (n : ℕ) (fs : List Fields)
      → map (λ (r : Ranked t). r.item) (rank_from t priors default_score n fs)
        ≡ map (annotated t priors default_score) fs
  unfolding rank_from
  items-rank_from n [] = refl
  items-rank_from n (f ∷ fs) =
      ap (λ xs. annotated t priors default_score f ∷ xs) (items-rank_from (suc n) fs)

-- What becomes of a finding: the same fields, but for `feedback`.
abbrev pub IsAnnotated : Fields → Fields → Type 0
IsAnnotated f g = (k : String) → k ≢ "feedback" → lookup g k ≡ lookup f k

pub record IsRanking (findings : List Fields) (r : Ranking) : Type 0 where
  pub kept : (f : Fields) → IsIn f findings → (g : Fields) × IsIn g r.findings × IsAnnotated f g
  pub own : (g : Fields) → IsIn g r.findings → (f : Fields) × IsIn f findings × IsAnnotated f g
  pub counted : length r.findings ≡ length findings
  pub ranked : r.ranked ≡ length findings
  pub suppressed : r.suppressed ≡ 0

-- Whatever the events and the orders of floats: every finding is in the ranking with all its fields but
-- `feedback`, nothing else is, there are as many as before, and none is counted as suppressed.
pub rank_findings-IsRanking :
    {F : Type 0} (t : FloatText F) (findings : List Fields) (events : List FeedbackEvent)
    (default_score : F)
    → IsRanking findings (rank_findings t findings events default_score)
unfolding rank_findings
rank_findings-IsRanking t findings events default_score =
    let priors = build_priors events in
    let ordered = rank_from t priors default_score 0 findings in
    let items = items-rank_from t priors default_score 0 findings in
    record {
      kept = λ f m.
          let g = annotated t priors default_score f in
          let (r, i, e) =
            IsIn-map_back (λ (q : Ranked t). q.item) ordered
              (subst (IsIn g) (sym items) (IsIn-map (annotated t priors default_score) m)) in
          (
            g,
            subst (λ x. IsIn x (map (λ (q : Ranked t). q.item) (sorted (rank_order t) ordered)))
                (sym e) (IsIn-map (λ (q : Ranked t). q.item) (IsIn-sorted_back (rank_order t) i)),
            λ k n. lookup-set_other f "feedback" k _ n,
          );
      own = λ g m.
          let (r, i, e) =
            IsIn-map_back (λ (q : Ranked t). q.item) (sorted (rank_order t) ordered) m in
          let (f, j, e') = IsIn-map_back (annotated t priors default_score) findings (
            subst (IsIn g) items (
              subst (λ x. IsIn x (map (λ (q : Ranked t). q.item) ordered)) (sym e)
                (IsIn-map (λ (q : Ranked t). q.item) (IsIn-sorted (rank_order t) i)))) in
          (
            f,
            j,
            λ k n.
                subst (λ x. lookup x k ≡ lookup f k) (sym e') (lookup-set_other f "feedback" k _ n),
          );
      counted =
          length-map (λ (q : Ranked t). q.item) (sorted (rank_order t) ordered)
          ∙ length-sorted (rank_order t) ordered
          ∙ sym (length-map (λ (q : Ranked t). q.item) ordered)
          ∙ ap length items
          ∙ length-map (annotated t priors default_score) findings;
      ranked =
          sym (length-map (λ (q : Ranked t). q.item) ordered)
          ∙ ap length items
          ∙ length-map (annotated t priors default_score) findings;
      suppressed = refl;
    }
