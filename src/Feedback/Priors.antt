-- ===== src/Feedback/Priors.antt =====
-- The counts of `build_priors` (smartbench/feedback/policy.py).
use smart_bench.Prelude.{
  ℕ, suc, ◌+◌, ◌≤◌, String, ◌≡◌, refl, sym, ap, ◌∙◌, Bool, true, false, ◌&&◌, some, List, [], ◌∷◌,
  ◌==◌, string_eq, pair_eq, if◌then◌else◌, arith, beq→eq, subst,
}
use smart_bench.Prelude.Dict.{Dict}
use smart_bench.Prelude.Dict
use smart_bench.Prelude.Counter.{tally, total, get_or-tally, total-tally}
use smart_bench.Feedback.Events.{
  FeedbackEvent, Key, event_key, Buckets, add_event, add_events, Prior, prior, priors_of,
  build_priors, actionable_label,
}

-- How many events have the key, and how many of these the label.
abbrev pub key_count : Key → List FeedbackEvent → ℕ
key_count k [] = 0
key_count k (e ∷ es) = if event_key e == k then suc (key_count k es) else key_count k es

abbrev pub label_count : Key → String → List FeedbackEvent → ℕ
label_count k l [] = 0
label_count k l (e ∷ es) =
    if event_key e == k && e.label == l then suc (label_count k l es) else label_count k l es

abbrev bucket : Buckets → Key → Dict String ℕ
bucket b k = Dict.get_or b k []

support-add_event :
    (b : Buckets) (e : FeedbackEvent) (k : Key)
    → total (Dict.values (bucket (add_event b e) k)) ≡ (
        if event_key e == k
        then suc (total (Dict.values (bucket b k)))
        else total (Dict.values (bucket b k)))
unfolding add_event
support-add_event b e k =
    rw (Dict.get_or-insert b (event_key e) k (tally (bucket b (event_key e)) e.label) [])
      (by_key (event_key e == k) refl)
  where
    by_key :
        (c : Bool)
        → (event_key e == k) ≡ c
        → total (Dict.values (if c then tally (bucket b (event_key e)) e.label else bucket b k))
          ≡ (if c then suc (total (Dict.values (bucket b k))) else total (Dict.values (bucket b k)))
    by_key true hit =
        total-tally (bucket b (event_key e)) e.label
        ∙ ap (λ j. suc (total (Dict.values (bucket b j)))) (beq→eq (event_key e) k hit)
    by_key false miss = refl

label-add_event :
    (b : Buckets) (e : FeedbackEvent) (k : Key) (l : String)
    → Dict.get_or (bucket (add_event b e) k) l 0 ≡ (
        if event_key e == k && e.label == l
        then suc (Dict.get_or (bucket b k) l 0)
        else Dict.get_or (bucket b k) l 0)
unfolding add_event
label-add_event b e k l =
    rw (Dict.get_or-insert b (event_key e) k (tally (bucket b (event_key e)) e.label) [])
      (by_key (event_key e == k) refl)
  where
    by_key :
        (c : Bool)
        → (event_key e == k) ≡ c
        → Dict.get_or (if c then tally (bucket b (event_key e)) e.label else bucket b k) l 0 ≡ (
            if c && e.label == l
            then suc (Dict.get_or (bucket b k) l 0)
            else Dict.get_or (bucket b k) l 0)
    by_key true hit =
        get_or-tally (bucket b (event_key e)) e.label l
        ∙ ap
            (λ j.
              if e.label == l
              then suc (Dict.get_or (bucket b j) l 0)
              else Dict.get_or (bucket b j) l 0)
            (beq→eq (event_key e) k hit)
    by_key false miss = refl

support-add_events :
    (b : Buckets) (es : List FeedbackEvent) (k : Key)
    → total (Dict.values (bucket (add_events b es) k))
      ≡ total (Dict.values (bucket b k)) + key_count k es
unfolding add_events
support-add_events b [] k = omega arith
support-add_events b (e ∷ es) k =
    ground (arith, support-add_events (add_event b e) es k, support-add_event b e k)

label-add_events :
    (b : Buckets) (es : List FeedbackEvent) (k : Key) (l : String)
    → Dict.get_or (bucket (add_events b es) k) l 0
      ≡ Dict.get_or (bucket b k) l 0 + label_count k l es
unfolding add_events
label-add_events b [] k l = omega arith
label-add_events b (e ∷ es) k l =
    ground (arith, label-add_events (add_event b e) es k l, label-add_event b e k l)

label_count-le :
    (k : Key) (l : String) (es : List FeedbackEvent) → label_count k l es ≤ key_count k es
label_count-le k l [] = omega arith
label_count-le k l (e ∷ es) = ground (arith, label_count-le k l es)

get-priors_of :
    (b : Buckets) (k : Key) (p : Prior)
    → Dict.get (priors_of b) k ≡ some p
    → p ≡ prior k (bucket b k)
unfolding Dict.get Dict.get_or
get-priors_of [] k p e = absurd (cc)
get-priors_of ((j, c) ∷ b) k p e = by_key (j == k) refl e (get-priors_of b k p)
  where
    by_key :
        (h : Bool)
        → (j == k) ≡ h
        → (if h then some (prior j c) else Dict.get (priors_of b) k) ≡ some p
        → (Dict.get (priors_of b) k ≡ some p → p ≡ prior k (bucket b k))
        → p ≡ prior k (Dict.or_default (if h then some c else Dict.get b k) [])
    by_key true hit q f = cc (ap (λ i. prior i c) (beq→eq j k hit))
    by_key false miss q f = f q

support-build :
    (es : List FeedbackEvent) (k : Key)
    → total (Dict.values (bucket (add_events [] es) k)) ≡ key_count k es
unfolding Dict.get_or Dict.get
support-build es k = support-add_events [] es k ∙ omega arith

label-build :
    (es : List FeedbackEvent) (k : Key) (l : String)
    → Dict.get_or (bucket (add_events [] es) k) l 0 ≡ label_count k l es
unfolding Dict.get_or Dict.get
label-build es k l = label-add_events [] es k l ∙ omega arith

prior-counts :
    (es : List FeedbackEvent) (k : Key)
    → let p = prior k (bucket (add_events [] es) k) in
      (p.support ≡ key_count k es)
      × (p.actionable ≡ label_count k actionable_label es)
      × (p.actionable + p.non_actionable ≡ p.support)
      × (p.ratio_numerator ≡ p.actionable + 1)
      × (p.ratio_denominator ≡ p.support + 2)
unfolding prior
prior-counts es k = (
  support-build es k,
  label-build es k actionable_label,
  omega (
    arith,
    support-build es k,
    label-build es k actionable_label,
    label_count-le k actionable_label es,
  ),
  refl,
  refl,
)

-- A prior's support is the number of events with its rule and language (`*` for an empty one), its actionable
-- count the number of those labelled actionable; the rest is not actionable, and the smoothed ratio
-- is one more than the one over two more than the other.
pub build_priors-counts :
    (events : List FeedbackEvent) (k : Key) (p : Prior)
    → Dict.get (build_priors events) k ≡ some p
    → (p.support ≡ key_count k events)
      × (p.actionable ≡ label_count k actionable_label events)
      × (p.actionable + p.non_actionable ≡ p.support)
      × (p.ratio_numerator ≡ p.actionable + 1)
      × (p.ratio_denominator ≡ p.support + 2)
unfolding build_priors
build_priors-counts events k p e =
    subst
      (λ q.
        (q.support ≡ key_count k events)
        × (q.actionable ≡ label_count k actionable_label events)
        × (q.actionable + q.non_actionable ≡ q.support)
        × (q.ratio_numerator ≡ q.actionable + 1)
        × (q.ratio_denominator ≡ q.support + 2))
      (sym (get-priors_of (add_events [] events) k p e)) (prior-counts events k)
