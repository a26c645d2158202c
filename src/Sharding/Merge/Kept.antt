-- ===== src/Sharding/Merge/Kept.antt =====
-- The invariant of the loop over suggestions of `merge_shard_results` (smartbench/sharding/merge.py).
use smart_bench.Prelude.{
  suc, ◌+◌, String, ◌≡◌, ◌≢◌, ◌⊎◌, inl, inr, refl, sym, ap, subst, ◌∙◌, Bool, true, false, Option,
  none, some, List, [], ◌∷◌, ◌++◌, ◌==◌, string_eq, pair_eq, length, unique, unique-snoc, contains,
  if◌then◌else◌, arith, IsIn, here, there, IsIn-append, IsIn-left, IsIn-right, IsIn-head,
  Bool-cases, beq→eq, beq_false→ne, beq_refl, length-append,
}
use smart_bench.Prelude.Dict.{Dict, is_some, has_key-get, has_key-keys}
use smart_bench.Prelude.Dict
use smart_bench.Ir.Values.{Fields}
use smart_bench.Sharding.Merge.Whole.{whole_eq}
use smart_bench.Sharding.Merge.Keys.{ShardText, Key, suggestion_key, is_stronger}
use smart_bench.Sharding.Merge.Combine.{Best, rivalled}

-- The strict order of strengths, as far as the loop needs it.
pub record IsStrict (t : ShardText) : Type 0 where
  pub irreflexive : (a : Fields) → is_stronger t a a ≡ false
  pub transitive :
      (a b c : Fields)
      → is_stronger t a b ≡ true
      → is_stronger t b c ≡ true
      → is_stronger t a c ≡ true

-- `s` was reported under the key `k`, and nothing stronger under that key.
pub record IsStrongest (t : ShardText) (reported : List Fields) (k : Key) (s : Fields)
    : Type 0 where
  pub keyed : suggestion_key t s ≡ k
  pub member : IsIn s reported
  pub strongest :
      (r : Fields) → IsIn r reported → suggestion_key t r ≡ k → is_stronger t r s ≡ false

-- The state after the suggestions `reported`.
pub record IsBest (t : ShardText) (reported : List Fields) (b : Best) : Type 0 where
  pub kept :
      (k : Key) (p : Fields × String) → Dict.get b.best k ≡ some p → IsStrongest t reported k p.0
  pub covered :
      (r : Fields) → IsIn r reported → is_some (Dict.get b.best (suggestion_key t r)) ≡ true
  pub once : unique (Dict.keys b.best) ≡ true
  pub counted : length (Dict.keys b.best) + b.duplicates ≡ length reported

keys-overwrite :
    (d : Dict Key (Fields × String)) (k : Key) (p q : Fields × String)
    → Dict.get d k ≡ some q
    → Dict.keys (Dict.insert d k p) ≡ Dict.keys d
keys-overwrite d k p q e = Dict.keys-insert d k p ∙ rw (has_key-get d k, e) refl

keys-new :
    (d : Dict Key (Fields × String)) (k : Key) (p : Fields × String)
    → Dict.get d k ≡ none
    → Dict.keys (Dict.insert d k p) ≡ Dict.keys d ++ k ∷ []
keys-new d k p e = Dict.keys-insert d k p ∙ rw (has_key-get d k, e) refl

module _ (t : ShardText) (order : IsStrict t) where
  -- Another report under a different key, or one that is not stronger, leaves the strongest.
  later :
      (reported : List Fields) (s : Fields) (k : Key) (kept : Fields)
      → (suggestion_key t s ≡ k → is_stronger t s kept ≡ false)
      → IsStrongest t reported k kept
      → IsStrongest t (reported ++ s ∷ []) k kept
  later reported s k kept weak h = record {
    keyed = h.keyed;
    member = IsIn-left (s ∷ []) h.member;
    strongest = λ r m e. by_place r e (IsIn-append reported (s ∷ []) m);
  }
    where
      by_place :
          (r : Fields)
          → suggestion_key t r ≡ k
          → IsIn r reported ⊎ IsIn r (s ∷ [])
          → is_stronger t r kept ≡ false
      by_place r e (inl m) = h.strongest r m e
      by_place r e (inr here) = weak e
      by_place r e (inr (there m)) = elim m [ ]

  -- What beats the strongest is the strongest.
  promoted :
      (reported : List Fields) (s kept : Fields)
      → is_stronger t s kept ≡ true
      → IsStrongest t reported (suggestion_key t s) kept
      → IsStrongest t (reported ++ s ∷ []) (suggestion_key t s) s
  promoted reported s kept better h = record {
    keyed = refl;
    member = IsIn-right reported here;
    strongest = λ r m e. by_place r e (IsIn-append reported (s ∷ []) m);
  }
    where
      by_place :
          (r : Fields)
          → suggestion_key t r ≡ suggestion_key t s
          → IsIn r reported ⊎ IsIn r (s ∷ [])
          → is_stronger t r s ≡ false
      by_place r e (inr here) = order.irreflexive r
      by_place r e (inr (there m)) = elim m [ ]
      by_place r e (inl m) = elim (Bool-cases (is_stronger t r s)) [
        | inl above ↦ absurd (cc (h.strongest r m e, order.transitive r s kept above better))
        | inr below ↦ below
      ]

  first_report :
      (reported : List Fields) (s : Fields)
      → ((r : Fields) → IsIn r reported → suggestion_key t r ≢ suggestion_key t s)
      → IsStrongest t (reported ++ s ∷ []) (suggestion_key t s) s
  first_report reported s alone = record {
    keyed = refl;
    member = IsIn-right reported here;
    strongest = λ r m e. by_place r e (IsIn-append reported (s ∷ []) m);
  }
    where
      by_place :
          (r : Fields)
          → suggestion_key t r ≡ suggestion_key t s
          → IsIn r reported ⊎ IsIn r (s ∷ [])
          → is_stronger t r s ≡ false
      by_place r e (inr here) = order.irreflexive r
      by_place r e (inr (there m)) = elim m [ ]
      by_place r e (inl m) = absurd (alone r m e)

  -- The dictionary after a write of the strongest under its key.
  written :
      (reported : List Fields) (s : Fields) (shard : String) (b : Best)
      → IsBest t reported b
      → IsStrongest t (reported ++ s ∷ []) (suggestion_key t s) s
      → (k : Key) (p : Fields × String)
      → Dict.get (Dict.insert b.best (suggestion_key t s) (s, shard)) k ≡ some p
      → IsStrongest t (reported ++ s ∷ []) k p.0
  written reported s shard b h strong k p e =
      by_key (suggestion_key t s == k) refl
        (sym (Dict.get-insert b.best (suggestion_key t s) k (s, shard)) ∙ e)
    where
      by_key :
          (c : Bool)
          → (suggestion_key t s == k) ≡ c
          → (if c then some (s, shard) else Dict.get b.best k) ≡ some p
          → IsStrongest t (reported ++ s ∷ []) k p.0
      by_key true hit q =
          subst (λ x. IsStrongest t (reported ++ s ∷ []) k x) (cc)
            (subst (λ j. IsStrongest t (reported ++ s ∷ []) j s) (beq→eq (suggestion_key t s) k hit)
              strong)
      by_key false miss q =
          later reported s k p.0 (λ e'. absurd (beq_false→ne (suggestion_key t s) k miss e'))
            (h.kept k p q)

  covered-write :
      (reported : List Fields) (s : Fields) (shard : String) (b : Best)
      → IsBest t reported b
      → (r : Fields) → IsIn r (reported ++ s ∷ [])
      → is_some (Dict.get (Dict.insert b.best (suggestion_key t s) (s, shard)) (suggestion_key t r))
        ≡ true
  covered-write reported s shard b h r m =
      rw (Dict.get-insert b.best (suggestion_key t s) (suggestion_key t r) (s, shard))
        (by_key (suggestion_key t s == suggestion_key t r) refl (IsIn-append reported (s ∷ []) m))
    where
      by_key :
          (c : Bool)
          → (suggestion_key t s == suggestion_key t r) ≡ c
          → IsIn r reported ⊎ IsIn r (s ∷ [])
          → is_some (if c then some (s, shard) else Dict.get b.best (suggestion_key t r)) ≡ true
      by_key true e q = refl
      by_key false e (inl q) = h.covered r q
      by_key false e (inr q) = elim (IsIn-head q) [
        | inl same ↦ absurd (cc (beq_refl (suggestion_key t s)))
        | inr later ↦ elim later [ ]
      ]

  pub rivalled-IsBest :
      (reported : List Fields) (s : Fields) (shard : String) (b : Best)
      (o : Option (Fields × String))
      → Dict.get b.best (suggestion_key t s) ≡ o
      → IsBest t reported b
      → IsBest t (reported ++ s ∷ []) (rivalled t b (suggestion_key t s) s shard o)
  rivalled-IsBest reported s shard b none e h = record {
    kept = written reported s shard b h (first_report reported s alone);
    covered = covered-write reported s shard b h;
    once =
        rw
          (
            keys-new b.best (suggestion_key t s) (s, shard) e,
            unique-snoc (suggestion_key t s) (Dict.keys b.best),
            h.once,
            absent,
          )
          refl;
    counted = rw (keys-new b.best (suggestion_key t s) (s, shard) e) (
        omega (
          arith,
          length-append (Dict.keys b.best) (suggestion_key t s ∷ []),
          length-append reported (s ∷ []),
          h.counted,
        ));
  }
    where
      absent : contains (suggestion_key t s) (Dict.keys b.best) ≡ false
      absent =
          sym (has_key-keys b.best (suggestion_key t s))
          ∙ has_key-get b.best (suggestion_key t s)
          ∙ ap is_some e

      alone : (r : Fields) → IsIn r reported → suggestion_key t r ≢ suggestion_key t s
      alone r m same = absurd (cc (h.covered r m))
  rivalled-IsBest reported s shard b (some (kept, from)) e h =
      elim (Bool-cases (is_stronger t s kept)) [
        | inl better ↦ rw (better) (replaced better)
        | inr weak ↦ rw (weak) (stays weak)
      ]
    where
      counts : length (Dict.keys b.best) + suc b.duplicates ≡ length (reported ++ s ∷ [])
      counts = omega (arith, length-append reported (s ∷ []), h.counted)

      replaced :
          is_stronger t s kept ≡ true
          → IsBest t (reported ++ s ∷ []) (record {
            best = Dict.insert b.best (suggestion_key t s) (s, shard);
            duplicates = suc b.duplicates;
            conflicts = suc b.conflicts;
          })
      replaced better = record {
        kept =
            written reported s shard b h
              (promoted reported s kept better (h.kept (suggestion_key t s) (kept, from) e));
        covered = covered-write reported s shard b h;
        once = rw (keys-overwrite b.best (suggestion_key t s) (s, shard) (kept, from) e) h.once;
        counted = rw (keys-overwrite b.best (suggestion_key t s) (s, shard) (kept, from) e) counts;
      }

      seen :
          (r : Fields)
          → IsIn r reported ⊎ IsIn r (s ∷ [])
          → is_some (Dict.get b.best (suggestion_key t r)) ≡ true
      seen r (inl m) = h.covered r m
      seen r (inr here) = ap is_some e
      seen r (inr (there m)) = elim m [ ]

      stays :
          is_stronger t s kept ≡ false
          → IsBest t
              (reported ++ s ∷ [])
              (record { best = b.best; duplicates = suc b.duplicates; conflicts = b.conflicts })
      stays weak = record {
        kept = λ k p q.
            later reported s k p.0 (λ same. subst (λ x. is_stronger t s x ≡ false) (cc) weak)
              (h.kept k p q);
        covered = λ r m. seen r (IsIn-append reported (s ∷ []) m);
        once = h.once;
        counted = counts;
      }
