-- ===== src/Sharding/Merge/Result.antt =====
-- The findings that `merge_shard_results` (smartbench/sharding/merge.py) returns.
use smart_bench.Prelude.{
  ◌+◌, String, ◌≡◌, inl, inr, refl, sym, ap, subst, ◌∙◌, Bool, true, Option, none, some, List, [],
  ◌∷◌, ◌++◌, string_eq, pair_eq, length, map, unique, sorted, insert_sorted, arith, IsIn,
  IsIn-flat_map, IsIn-flat_mapped, IsIn-sorted, IsIn-sorted_back, IsIn-map, IsIn-map_back,
  length-map, flat_map, Bool-cases, length-append, length-sorted, append_assoc, append-nil,
  unique-map-sorted,
}
use smart_bench.Prelude.Dict.{Dict, is_some}
use smart_bench.Prelude.Dict
use smart_bench.Prelude.Entries.{get-IsIn, IsIn-get, IsIn-values, map-values}
use smart_bench.Ir.Values.{Fields}
use smart_bench.Sharding.Merge.Whole.{whole_eq}
use smart_bench.Sharding.Merge.Keys.{ShardText, Key, suggestion_key}
use smart_bench.Sharding.Merge.Combine.{
  ShardOutcome, Best, take_suggestion, take_suggestions, take_outcomes, suggestions_of,
  nothing_kept, merge_shard_results, by_shard, by_sort_key, MergedResult,
}
use smart_bench.Sharding.Merge.Kept.{IsStrict, IsStrongest, IsBest, rivalled-IsBest}

-- All suggestions that the shards report.
abbrev pub reports : List ShardOutcome → List Fields
reports outcomes = flat_map (λ (o : ShardOutcome). suggestions_of o.result) outcomes

module _ (t : ShardText) (order : IsStrict t) where
  nothing_kept-IsBest : IsBest t [] nothing_kept
  unfolding Dict.get
  nothing_kept-IsBest = record {
    kept = λ k p e. absurd (cc);
    covered = λ r m. elim m [ ];
    once = refl;
    counted = refl;
  }

  take_suggestions-IsBest :
      (ss reported : List Fields) (shard : String) (b : Best)
      → IsBest t reported b
      → IsBest t (reported ++ ss) (take_suggestions t shard b ss)
  unfolding take_suggestions take_suggestion
  take_suggestions-IsBest [] reported shard b h = rw (append-nil reported) h
  take_suggestions-IsBest (s ∷ ss) reported shard b h =
      subst (λ r. IsBest t r (take_suggestions t shard (take_suggestion t shard b s) ss))
        (append_assoc reported (s ∷ []) ss)
        (take_suggestions-IsBest ss (reported ++ s ∷ []) shard (take_suggestion t shard b s) (
          rivalled-IsBest t order reported s shard b (Dict.get b.best (suggestion_key t s)) refl h))

  take_outcomes-IsBest :
      (os : List ShardOutcome) (reported : List Fields) (b : Best)
      → IsBest t reported b
      → IsBest t (reported ++ reports os) (take_outcomes t b os)
  unfolding take_outcomes
  take_outcomes-IsBest [] reported b h = rw (append-nil reported) h
  take_outcomes-IsBest (o ∷ os) reported b h =
      let found = suggestions_of o.result in
      subst (λ r. IsBest t r (take_outcomes t (take_suggestions t o.shard_id b found) os))
        (append_assoc reported found (reports os))
        (take_outcomes-IsBest os (reported ++ found) (take_suggestions t o.shard_id b found)
          (take_suggestions-IsBest found reported o.shard_id b h))

length-reports-insert_sorted :
    (le : ShardOutcome → ShardOutcome → Bool) (o : ShardOutcome) (os : List ShardOutcome)
    → length (reports (insert_sorted le o os)) ≡ length (reports (o ∷ os))
unfolding insert_sorted
length-reports-insert_sorted le o [] = refl
length-reports-insert_sorted le o (x ∷ os) = elim (Bool-cases (le o x)) [
  | inl e ↦ rw (e) refl
  | inr e ↦ rw (e) (
      omega (
        arith,
        length-append (suggestions_of x.result) (reports (insert_sorted le o os)),
        length-append (suggestions_of o.result) (suggestions_of x.result ++ reports os),
        length-append (suggestions_of x.result) (reports os),
        length-append (suggestions_of o.result) (reports os),
        length-reports-insert_sorted le o os,
      ))
]

length-reports-sorted :
    (le : ShardOutcome → ShardOutcome → Bool) (os : List ShardOutcome)
    → length (reports (sorted le os)) ≡ length (reports os)
unfolding sorted
length-reports-sorted le [] = refl
length-reports-sorted le (o ∷ os) =
    length-reports-insert_sorted le o (sorted le os)
    ∙ omega (
      arith,
      length-append (suggestions_of o.result) (reports (sorted le os)),
      length-append (suggestions_of o.result) (reports os),
      length-reports-sorted le os,
    )

IsIn-reports_sorted :
    {r : Fields} (os : List ShardOutcome)
    → IsIn r (reports (sorted by_shard os))
    → IsIn r (reports os)
IsIn-reports_sorted os m =
    let (o, i, j) = IsIn-flat_map _ (sorted by_shard os) m in
    IsIn-flat_mapped _ (IsIn-sorted by_shard i) j

reports_sorted-IsIn :
    {r : Fields} (os : List ShardOutcome)
    → IsIn r (reports os)
    → IsIn r (reports (sorted by_shard os))
reports_sorted-IsIn os m =
    let (o, i, j) = IsIn-flat_map _ os m in IsIn-flat_mapped _ (IsIn-sorted_back by_shard i) j

pub record IsResult (t : ShardText) (outcomes : List ShardOutcome) (r : MergedResult) : Type 0 where
  pub kept :
      (s : Fields)
      → IsIn s r.final_suggestions
      → IsStrongest t (reports outcomes) (suggestion_key t s) s
  pub covered :
      (s : Fields)
      → IsIn s (reports outcomes)
      → (k : Fields) × IsIn k r.final_suggestions × (suggestion_key t k ≡ suggestion_key t s)
  pub once : unique (map (suggestion_key t) r.final_suggestions) ≡ true
  pub counted : length r.final_suggestions + r.cross_shard_duplicates ≡ length (reports outcomes)

abbrev pub key_of : ShardText → Fields × String → Key
key_of t p = suggestion_key t p.0

map-compose {ℓ κ μ} :
    {A : Type ℓ} {B : Type κ} {C : Type μ} (f : B → C) (g : A → B) (xs : List A)
    → map f (map g xs) ≡ map (λ x. f (g x)) xs
map-compose f g [] = refl
map-compose f g (x ∷ xs) = ap (λ ys. f (g x) ∷ ys) (map-compose f g xs)

-- What is read out of the dictionary at the end, in the order of the sort key.
module _ (t : ShardText) (outcomes : List ShardOutcome) (b : Best)
    (h : IsBest t (reports (sorted by_shard outcomes)) b) where
  abbrev finals : List (Fields × String)
  finals = sorted (by_sort_key t) (Dict.values b.best)

  value-strongest :
      (p : Fields × String)
      → IsIn p (Dict.values b.best)
      → IsStrongest t (reports (sorted by_shard outcomes)) (key_of t p) p.0
  value-strongest p m =
      let (k, i) = IsIn-values b.best p m in
      let s = h.kept k p (get-IsIn b.best k p h.once i) in
      subst (λ j. IsStrongest t (reports (sorted by_shard outcomes)) j p.0) (sym s.keyed) s

  keys-values : map (key_of t) (Dict.values b.best) ≡ Dict.keys b.best
  keys-values =
      map-values (key_of t) b.best (λ k p i. (h.kept k p (get-IsIn b.best k p h.once i)).keyed)

  finals-kept :
      (s : Fields)
      → IsIn s (map (λ p. p.0) finals)
      → IsStrongest t (reports outcomes) (suggestion_key t s) s
  finals-kept s m =
      let (p, i, e) = IsIn-map_back (λ (q : Fields × String). q.0) finals m in
      let v = value-strongest p (IsIn-sorted (by_sort_key t) i) in
      subst (λ x. IsStrongest t (reports outcomes) (suggestion_key t x) x) (sym e)
        (record {
          keyed = v.keyed;
          member = IsIn-reports_sorted outcomes v.member;
          strongest = λ r j. v.strongest r (reports_sorted-IsIn outcomes j);
        })

  finals-covered :
      (s : Fields)
      → IsIn s (reports outcomes)
      → (k : Fields) × IsIn k (map (λ p. p.0) finals) × (suggestion_key t k ≡ suggestion_key t s)
  finals-covered s m =
      by_answer (Dict.get b.best (suggestion_key t s)) refl
        (h.covered s (reports_sorted-IsIn outcomes m))
    where
      by_answer :
          (o : Option (Fields × String))
          → Dict.get b.best (suggestion_key t s) ≡ o
          → is_some o ≡ true
          → (k : Fields) × IsIn k (map (λ p. p.0) finals)
            × (suggestion_key t k ≡ suggestion_key t s)
      by_answer none e c = absurd (cc)
      by_answer (some p) e c = (
        p.0,
        IsIn-map (λ (q : Fields × String). q.0)
            (IsIn-sorted_back (by_sort_key t) (IsIn-get b.best (suggestion_key t s) p e)),
        (h.kept (suggestion_key t s) p e).keyed,
      )

  finals-once : unique (map (suggestion_key t) (map (λ p. p.0) finals)) ≡ true
  finals-once =
      ap unique (map-compose (suggestion_key t) (λ (p : Fields × String). p.0) finals)
      ∙ unique-map-sorted (by_sort_key t) (key_of t) (Dict.values b.best)
      ∙ ap unique keys-values
      ∙ h.once

  finals-counted : length (map (λ p. p.0) finals) + b.duplicates ≡ length (reports outcomes)
  finals-counted = omega (
    arith,
    length-map (λ (p : Fields × String). p.0) finals,
    length-sorted (by_sort_key t) (Dict.values b.best),
    length-map (key_of t) (Dict.values b.best),
    ap length keys-values,
    h.counted,
    length-reports-sorted by_shard outcomes,
  )

-- Where strengths are strictly ordered: each finding of the merged result was reported, and no report with
-- its key is stronger; every report's key has a finding, no key has two; and the findings and the
-- duplicates counted are as many as the reports.
pub merge_shard_results-IsResult :
    (t : ShardText) (outcomes : List ShardOutcome)
    → IsStrict t
    → IsResult t outcomes (merge_shard_results t outcomes)
unfolding merge_shard_results
merge_shard_results-IsResult t outcomes order =
    let b = take_outcomes t nothing_kept (sorted by_shard outcomes) in
    let h =
      take_outcomes-IsBest t order (sorted by_shard outcomes) [] nothing_kept
        (nothing_kept-IsBest t order) in
    record {
      kept = finals-kept t outcomes b h;
      covered = finals-covered t outcomes b h;
      once = finals-once t outcomes b h;
      counted = finals-counted t outcomes b h;
    }
