-- ===== src/Feedback/Trials.antt =====
-- `summarize_trials` of smartbench/llm/trials.py: how far repeated reviews agree. Costs and durations, which are floats and clocks, are left out; the rate is kept as two numbers.
use smart_bench.Prelude.{
  ℕ, ◌≤◌, max, String, ◌≡◌, ◌≢◌, ◌↔◌, inl, inr, refl, sym, ◌∙◌, Bool, true, false, List, [], ◌∷◌,
  ◌==◌, string_eq, length, map, leb, contains, unique, arith, Bool-cases, beq→eq, beq_refl,
}
use smart_bench.Prelude.Dict.{Dict, has_key-keys}
use smart_bench.Prelude.Dict
use smart_bench.Prelude.Counter.{
  counter, occurrences, get_or-counter, unique-tallies, has_key-tallies, total,
}

pub record TrialRecord : Type 0 where
  pub index : ℕ
  pub suggestions : ℕ
  pub signature : String
  pub prompt_tokens : ℕ
  pub completion_tokens : ℕ
  pub total_tokens : ℕ

pub record TrialReport : Type 0 where
  pub trials : List TrialRecord
  pub stable : Bool
  pub majority_count : ℕ
  pub trial_count : ℕ
  pub total_tokens : ℕ

-- `max(values) if counts else 0`
abbrev pub maximum : List ℕ → ℕ
maximum [] = 0
maximum (n ∷ ns) = max n (maximum ns)

abbrev pub signatures : List TrialRecord → List String
signatures trials = map (λ (r : TrialRecord). r.signature) trials

unfoldable pub summarize_trials : List TrialRecord → TrialReport
unfolding counter
summarize_trials trials =
    let counts = counter (signatures trials) in
    record {
      trials = trials;
      stable = leb (length counts) 1;
      majority_count = maximum (Dict.values counts);
      trial_count = length trials;
      total_tokens = total (map (λ (r : TrialRecord). r.total_tokens) trials);
    }

contains-counter :
    (xs : List String) (k : String) → contains k (Dict.keys (counter xs)) ≡ contains k xs
unfolding counter Dict.has_key
contains-counter xs k = sym (has_key-keys (counter xs) k) ∙ has_key-tallies [] xs k

unique-counter : (xs : List String) → unique (Dict.keys (counter xs)) ≡ true
unfolding counter
unique-counter xs = unique-tallies [] xs refl

get_or-maximum : (d : Dict String ℕ) (k : String) → Dict.get_or d k 0 ≤ maximum (Dict.values d)
unfolding Dict.get_or Dict.get
get_or-maximum [] k = omega arith
get_or-maximum ((j, n) ∷ d) k = ground (arith, get_or-maximum d k)

-- One of the keys has the maximal count.
attained :
    (j : String) (n : ℕ) (d : Dict String ℕ)
    → unique (Dict.keys ((j, n) ∷ d)) ≡ true
    → (k : String) × (contains k (Dict.keys ((j, n) ∷ d)) ≡ true)
      × (Dict.get_or ((j, n) ∷ d) k 0 ≡ maximum (Dict.values ((j, n) ∷ d)))
unfolding Dict.get_or Dict.get
attained j n [] u = (j, ground (arith, beq_refl j), ground (arith, beq_refl j))
attained j n ((i, m) ∷ d) u = elim (Bool-cases (leb (maximum (Dict.values ((i, m) ∷ d))) n)) [
  | inl e ↦ (j, ground (arith, beq_refl j), ground (arith, beq_refl j))
  | inr e ↦ later e (attained i m d (ground arith))
]
  where
    new : contains j (Dict.keys ((i, m) ∷ d)) ≡ false
    new = ground arith

    above : (x : ℕ) → leb x n ≡ false → x ≡ max n x
    above x h = ground arith

    later :
        leb (maximum (Dict.values ((i, m) ∷ d))) n ≡ false
        → (k : String) × (contains k (Dict.keys ((i, m) ∷ d)) ≡ true)
          × (Dict.get_or ((i, m) ∷ d) k 0 ≡ maximum (Dict.values ((i, m) ∷ d)))
        → (k : String) × (contains k (Dict.keys ((j, n) ∷ (i, m) ∷ d)) ≡ true)
          × (Dict.get_or ((j, n) ∷ (i, m) ∷ d) k 0 ≡ maximum (Dict.values ((j, n) ∷ (i, m) ∷ d)))
    later e (k, c, g) = (
      k,
      ground arith,
      elim (Bool-cases (j == k)) [
        | inl hit ↦ absurd (cc (beq→eq j k hit, c, new))
        | inr miss ↦ rw (miss) (g ∙ above (maximum (Dict.values ((i, m) ∷ d))) e)
      ],
    )

-- All trials have one signature.
abbrev pub Agree : List TrialRecord → Type 0
Agree trials =
    (a b : String)
    → contains a (signatures trials) ≡ true
    → contains b (signatures trials) ≡ true
    → a ≡ b

few :
    (d : Dict String ℕ) (a b : String)
    → leb (length d) 1 ≡ true
    → contains a (Dict.keys d) ≡ true
    → contains b (Dict.keys d) ≡ true
    → a ≡ b
few [] a b l h k = absurd (cc)
few ((i, n) ∷ []) a b l h k = ground (arith, string_eq.same_iff a i, string_eq.same_iff b i)
few ((i, n) ∷ (j, m) ∷ d) a b l h k = absurd (ground arith)

same_key :
    (d : Dict String ℕ)
    → unique (Dict.keys d) ≡ true
    → ((a b : String) → contains a (Dict.keys d) ≡ true → contains b (Dict.keys d) ≡ true → a ≡ b)
    → leb (length d) 1 ≡ true
same_key [] u f = refl
same_key ((i, n) ∷ []) u f = refl
same_key ((i, n) ∷ (j, m) ∷ d) u f =
    absurd
      (ground (arith, f i j (ground (arith, beq_refl i)) (ground (arith, beq_refl j)), beq_refl j))

stable_iff : (trials : List TrialRecord) → ((summarize_trials trials).stable ≡ true) ↔ Agree trials
unfolding summarize_trials
stable_iff trials =
    let xs = signatures trials in
    (
      λ h a b m k. few (counter xs) a b h (contains-counter xs a ∙ m) (contains-counter xs b ∙ k),
      λ f.
          same_key (counter xs) (unique-counter xs)
            (λ a b m k. f a b (sym (contains-counter xs a) ∙ m) (sym (contains-counter xs b) ∙ k)),
    )

majority_attained :
    (d : Dict String ℕ)
    → unique (Dict.keys d) ≡ true
    → d ≢ []
    → (k : String) × (contains k (Dict.keys d) ≡ true)
      × (Dict.get_or d k 0 ≡ maximum (Dict.values d))
majority_attained [] u n = absurd (n refl)
majority_attained ((j, n) ∷ d) u ne = attained j n d u

counted : (xs : List String) (x : String) → contains x xs ≡ true → counter xs ≢ []
counted xs x m e = absurd (cc (contains-counter xs x))

-- A report is stable exactly if all trials have one signature; no signature occurs more often than the
-- majority count, and with at least one trial some signature occurs that often.
pub summarize_trials_lem :
    (trials : List TrialRecord)
    → (((summarize_trials trials).stable ≡ true) ↔ Agree trials)
      × ((s : String)
          → occurrences s (signatures trials) ≤ (summarize_trials trials).majority_count)
      × ((s : String)
          → contains s (signatures trials) ≡ true
          → (k : String) × (contains k (signatures trials) ≡ true)
            × (occurrences k (signatures trials) ≡ (summarize_trials trials).majority_count))
unfolding summarize_trials
summarize_trials_lem trials =
    let xs = signatures trials in
    (
      stable_iff trials,
      λ s. omega (arith, get_or-maximum (counter xs) s, get_or-counter xs s),
      λ s m.
          let (k, c, e) = majority_attained (counter xs) (unique-counter xs) (counted xs s m) in
          (k, sym (contains-counter xs k) ∙ c, sym (get_or-counter xs k) ∙ e),
    )
