-- ===== src/Capabilities/Assess.antt =====
-- `SemanticIR.supports`, `missing_capabilities` and `assess_requirements`.
use Prim.Native.String.{◌++◌ as push_str}
use smart_bench.Prelude.{
  ◌≤◌, String, ◌≡◌, ◌⊎◌, inl, inr, refl, Bool, true, false, List, [], ◌∷◌, ◌++◌, ◌==◌, string_eq,
  contains, sorted, str_leb, all, ltb, map, arith, Bool-cases, if◌then◌else◌, sym, subst, ap, ◌∙◌,
  beq→eq, beq_refl,
}
use smart_bench.Prelude.Dict.{Dict}
use smart_bench.Prelude.Dict
use smart_bench.Icfg.Graph.{distinct}
use smart_bench.Capabilities.Set.{
  Capability, CapabilityLevel, unknown, unsupported, partial, full, rank, CapabilitySet, empty_set,
  supports, missing, CapabilityDetail, lower_of, SetAssessment, assess, contract_status,
  assess_status,
}

-- The fields of `SemanticIR` that the contract reads.
pub record Frontends : Type 0 where
  pub languages : List String
  pub capabilities : Dict String CapabilitySet

abbrev pub set_of : Frontends → String → CapabilitySet
set_of ir language = Dict.get_or ir.capabilities language (empty_set language)

-- `[language] if language else list(self.languages)`
abbrev targets_of : Frontends → String → List String
targets_of ir language = if language == "" then ir.languages else language ∷ []

unfoldable pub ir_supports : Frontends → Capability → String → Bool
ir_supports ir c language = elim (targets_of ir language) [
  | [] ↦ false
  | t ∷ ts ↦ all (λ target. supports (set_of ir target) c) (t ∷ ts)
]

abbrev keep_missing : String → List String → Dict String (List String) → Dict String (List String)
keep_missing target [] rest = rest
keep_missing target (c ∷ cs) rest = (target, c ∷ cs) ∷ rest

unfoldable missing_in : Frontends → List Capability → List String → Dict String (List String)
missing_in ir required [] = []
missing_in ir required (t ∷ ts) =
    keep_missing t (missing (set_of ir t) required) (missing_in ir required ts)

unfoldable pub missing_capabilities :
    Frontends → List Capability → String → Dict String (List String)
unfolding missing_in
missing_capabilities ir required language = missing_in ir required (targets_of ir language)

pub record AnalysisAssessment : Type 0 where
  pub status : CapabilityLevel
  pub languages : List String
  pub requirements : List (Capability × CapabilityLevel)
  pub by_language : Dict String SetAssessment
  pub reason : String

-- The reasons of the limited capabilities of one language.
abbrev partial_reasons : String → Dict String CapabilityDetail → List String
partial_reasons language [] = []
partial_reasons language ((c, d) ∷ details) =
    if d.reason == ""
    then partial_reasons language details
    else push_str language (push_str "." (push_str c (push_str ": " d.reason)))
      ∷ partial_reasons language details

unfoldable pub reasons_of : String → SetAssessment → List String
reasons_of language a = elim a.status [
  | partial ↦ partial_reasons language a.capabilities
  | unsupported ↦ push_str language (": required semantic capability is unavailable") ∷ []
  | unknown ↦ push_str language (": rule declares no semantic capability requirements") ∷ []
  | full ↦ []
]

-- What the loop over the languages holds.
pub record Progress : Type 0 where
  pub overall : CapabilityLevel
  pub by_language : Dict String SetAssessment
  pub reasons : List String

unfoldable pub languages_loop :
    Frontends → List (Capability × CapabilityLevel) → Progress → List String → Progress
unfolding reasons_of
languages_loop ir required p [] = p
languages_loop ir required p (l ∷ ls) =
    let a = assess (set_of ir l) required in
    languages_loop ir required
      (record {
        overall = lower_of a.status p.overall;
        by_language = Dict.insert p.by_language l a;
        reasons = p.reasons ++ reasons_of l a;
      })
      ls

-- `dict.fromkeys(reasons)`: the first of each.
abbrev first_of_each : List String → List String → List String
first_of_each seen [] = []
first_of_each seen (x ∷ xs) =
    if contains x seen then first_of_each seen xs else x ∷ first_of_each (x ∷ seen) xs

abbrev join_reasons : List String → String
join_reasons [] = ""
join_reasons (x ∷ []) = x
join_reasons (x ∷ y ∷ xs) = push_str x (push_str "; " (join_reasons (y ∷ xs)))

-- `tuple(sorted(set(languages or self.languages)))`
unfoldable pub chosen_languages : Frontends → List String → List String
unfolding distinct
chosen_languages ir [] = sorted str_leb (distinct ir.languages)
chosen_languages ir (l ∷ ls) = sorted str_leb (distinct (l ∷ ls))

abbrev start : Progress
start = record { overall = full; by_language = []; reasons = [] }

unfoldable pub assess_targets :
    Frontends → List (Capability × CapabilityLevel) → List String → AnalysisAssessment
unfolding languages_loop
assess_targets ir required [] = record {
  status = unsupported;
  languages = [];
  requirements = required;
  by_language = [];
  reason = "no applicable frontend language";
}
assess_targets ir required (l ∷ ls) =
    let p = languages_loop ir required start (l ∷ ls) in
    record {
      status = p.overall;
      languages = l ∷ ls;
      requirements = required;
      by_language = p.by_language;
      reason = join_reasons (first_of_each [] p.reasons);
    }

unfoldable pub assess_requirements :
    Frontends → List (Capability × CapabilityLevel) → List String → AnalysisAssessment
unfolding assess_targets chosen_languages
assess_requirements ir required languages =
    assess_targets ir required (chosen_languages ir languages)

abbrev lowest : CapabilityLevel → List CapabilityLevel → CapabilityLevel
lowest o [] = o
lowest o (l ∷ ls) = lowest (lower_of l o) ls

loop_overall :
    (ir : Frontends) (required : List (Capability × CapabilityLevel)) (p : Progress)
    (ls : List String)
    → (languages_loop ir required p ls).overall
      ≡ lowest p.overall (map (λ l. contract_status (set_of ir l) required) ls)
unfolding languages_loop
loop_overall ir required p [] = refl
loop_overall ir required p (k ∷ ls) =
    loop_overall ir required
      (record {
        overall = lower_of (assess (set_of ir k) required).status p.overall;
        by_language = Dict.insert p.by_language k (assess (set_of ir k) required);
        reasons = p.reasons ++ reasons_of k (assess (set_of ir k) required);
      })
      ls
    ∙ ap (λ x. lowest (lower_of x p.overall) (map (λ l. contract_status (set_of ir l) required) ls))
        (assess_status (set_of ir k) required)

lowest_le : (o : CapabilityLevel) (ls : List CapabilityLevel) → rank (lowest o ls) ≤ rank o
lowest_le o [] = omega arith
lowest_le o (l ∷ ls) = ground (arith, lowest_le (lower_of l o) ls)

lowest_lower :
    (ir : Frontends) (required : List (Capability × CapabilityLevel)) (o : CapabilityLevel)
    (ls : List String) (l : String)
    → contains l ls ≡ true
    → rank (lowest o (map (λ t. contract_status (set_of ir t) required) ls))
      ≤ rank (contract_status (set_of ir l) required)
lowest_lower ir required o [] l m = absurd (cc)
lowest_lower ir required o (k ∷ ls) l m = elim (Bool-cases (l == k)) [
  | inl p ↦
      subst
        (λ t.
          rank (
            lowest (lower_of (contract_status (set_of ir k) required) o)
              (map (λ u. contract_status (set_of ir u) required) ls))
          ≤ rank (contract_status (set_of ir t) required))
        (sym (beq→eq l k p))
        (by_first (contract_status (set_of ir k) required)
          (map (λ u. contract_status (set_of ir u) required) ls))
  | inr p ↦
      lowest_lower ir required (lower_of (contract_status (set_of ir k) required) o) ls l
        (ground arith)
]
  where
    by_first :
        (a : CapabilityLevel) (rest : List CapabilityLevel)
        → rank (lowest (lower_of a o) rest) ≤ rank a
    by_first a rest = ground (arith, lowest_le (lower_of a o) rest)

lowest_attained :
    (ir : Frontends) (required : List (Capability × CapabilityLevel)) (o : CapabilityLevel)
    (ls : List String)
    → (lowest o (map (λ t. contract_status (set_of ir t) required) ls) ≡ o)
      ⊎ ((l : String) × (contains l ls ≡ true)
          × (lowest o (map (λ t. contract_status (set_of ir t) required) ls)
              ≡ contract_status (set_of ir l) required))
lowest_attained ir required o [] = inl refl
lowest_attained ir required o (k ∷ ls) =
    by_test (Bool-cases (ltb (rank (contract_status (set_of ir k) required)) (rank o)))
      (lowest_attained ir required (lower_of (contract_status (set_of ir k) required) o) ls)
  where
    by_test :
        (ltb (rank (contract_status (set_of ir k) required)) (rank o) ≡ true)
          ⊎ (ltb (rank (contract_status (set_of ir k) required)) (rank o) ≡ false)
        → (lowest
              (lower_of (contract_status (set_of ir k) required) o)
              (map (λ t. contract_status (set_of ir t) required) ls)
            ≡ lower_of (contract_status (set_of ir k) required) o)
          ⊎ ((l : String) × (contains l ls ≡ true)
              × (lowest
                    (lower_of (contract_status (set_of ir k) required) o)
                    (map (λ t. contract_status (set_of ir t) required) ls)
                  ≡ contract_status (set_of ir l) required))
        → (lowest
              (lower_of (contract_status (set_of ir k) required) o)
              (map (λ t. contract_status (set_of ir t) required) ls)
            ≡ o)
          ⊎ ((l : String) × (contains l (k ∷ ls) ≡ true)
              × (lowest
                    (lower_of (contract_status (set_of ir k) required) o)
                    (map (λ t. contract_status (set_of ir t) required) ls)
                  ≡ contract_status (set_of ir l) required))
    by_test t (inr (l, m, e)) = inr (l, ground (arith, m), e)
    by_test (inl t) (inl e) = inr (k, ground (arith, beq_refl k), e ∙ kept t)
      where
        kept :
            ltb (rank (contract_status (set_of ir k) required)) (rank o) ≡ true
            → lower_of (contract_status (set_of ir k) required) o
              ≡ contract_status (set_of ir k) required
        kept u = rw (u) refl
    by_test (inr t) (inl e) = inl (e ∙ kept t)
      where
        kept :
            ltb (rank (contract_status (set_of ir k) required)) (rank o) ≡ false
            → lower_of (contract_status (set_of ir k) required) o ≡ o
        kept u = rw (u) refl

-- The status of an assessment with a language to apply to is the lowest of the statuses that the languages'
-- own capabilities deserve: no language is below it, and it is full or some language's.
pub assess_lowest :
    (ir : Frontends) (required : List (Capability × CapabilityLevel)) (languages : List String)
    (t : String) (ts : List String)
    → chosen_languages ir languages ≡ t ∷ ts
    → ((l : String)
        → contains l (t ∷ ts) ≡ true
        → rank (assess_requirements ir required languages).status
          ≤ rank (contract_status (set_of ir l) required))
      × (((assess_requirements ir required languages).status ≡ full)
          ⊎ ((l : String) × (contains l (t ∷ ts) ≡ true)
              × ((assess_requirements ir required languages).status
                  ≡ contract_status (set_of ir l) required)))
unfolding assess_requirements assess_targets
assess_lowest ir required languages t ts h = (
  λ l m.
      subst (λ x. rank x ≤ rank (contract_status (set_of ir l) required)) (sym same)
        (lowest_lower ir required full (t ∷ ts) l m),
  subst
      (λ x.
        (x ≡ full)
        ⊎ ((l : String) × (contains l (t ∷ ts) ≡ true)
            × (x ≡ contract_status (set_of ir l) required)))
      (sym same) (lowest_attained ir required full (t ∷ ts)),
)
  where
    same :
        (assess_requirements ir required languages).status
        ≡ lowest full (map (λ l. contract_status (set_of ir l) required) (t ∷ ts))
    same =
        ap (λ ls. (assess_targets ir required ls).status) h
        ∙ loop_overall ir required start (t ∷ ts)
