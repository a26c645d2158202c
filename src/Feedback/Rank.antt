-- ===== src/Feedback/Rank.antt =====
-- `rank_findings`. Scores and confidences are floats: their values and order are parameters.
use smart_bench.Prelude.{
  ℕ, suc, String, Bool, Option, none, some, List, [], ◌∷◌, ◌==◌, string_eq, pair_eq, length, map,
  sorted, if◌then◌else◌, then_compare, is_le,
}
use Prim.Native.Nat.{Ordering, compare}
use smart_bench.Prelude.Dict.{Dict}
use smart_bench.Ir.Values.{Value, Fields, null, int, obj, end, field}
use smart_bench.Debate.Gate.{lookup}
use smart_bench.Code.Graph.{set_field}
use smart_bench.Sharding.Merge.Keys.{ShardText, text_or}
use smart_bench.Feedback.Events.{FeedbackEvent, Key, Prior, build_priors, prior_for}

-- The rounded quotient of two numbers and the default score as values, the order of values of the first kind,
-- the order of `_confidence`, and `str.endswith`.
pub record FloatText (F : Type 0) : Type 0 where
  pub text : ShardText
  pub ratio : ℕ → ℕ → F
  pub to_value : F → Value
  pub compare_score : F → F → Ordering
  pub compare_confidence : Option Value → Option Value → Ordering
  pub ends_with : String → String → Bool

abbrev language_by_suffix : List (String × String)
language_by_suffix =
    (".py", "python")
    ∷ (".go", "go")
    ∷ (".js", "javascript")
    ∷ (".jsx", "javascript")
    ∷ (".ts", "typescript")
    ∷ (".tsx", "typescript")
    ∷ (".java", "java")
    ∷ (".kt", "kotlin")
    ∷ (".rs", "rust")
    ∷ (".rb", "ruby")
    ∷ (".c", "c")
    ∷ (".cc", "cpp")
    ∷ (".cpp", "cpp")
    ∷ (".h", "c")
    ∷ (".cs", "csharp")
    ∷ (".swift", "swift")
    ∷ []

abbrev label_items : Dict String ℕ → Fields
label_items [] = end
label_items ((k, n) ∷ d) = field k (int n) (label_items d)

pub record Ranking : Type 0 where
  pub findings : List Fields
  pub ranked : ℕ
  pub suppressed : ℕ

module _ {F : Type 0} (t : FloatText F) where
  unfoldable pub by_suffix : List (String × String) → String → String
  by_suffix [] path = ""
  by_suffix ((suffix, language) ∷ rest) path =
      if t.ends_with path suffix then language else by_suffix rest path

  abbrev location_path : Option Value → String
  location_path (some (obj fs)) = text_or t.text (lookup fs "file_path") ""
  location_path _ = ""

  abbrev path_or : String → Fields → String
  path_or path f = if path == "" then text_or t.text (lookup f "file_path") "" else path

  abbrev explicit_or : String → String → String
  explicit_or explicit inferred = if explicit == "" then inferred else explicit

  unfoldable pub finding_language : Fields → String
  unfolding by_suffix
  finding_language f =
      explicit_or (t.text.py.lower (t.text.py.strip (text_or t.text (lookup f "language") "")))
        (by_suffix language_by_suffix (path_or (location_path (lookup f "location")) f))

  abbrev score_of : F → Option Prior → F
  score_of default_score none = default_score
  score_of default_score (some p) = t.ratio p.ratio_numerator p.ratio_denominator

  abbrev annotation : F → Option Prior → Fields
  annotation score none =
      field "score" (t.to_value score) (
        field "actionable_ratio" null
          (field "support" (int 0) (field "label_counts" (obj end) end)))
  annotation score (some p) = field "score" (t.to_value score) (
      field "actionable_ratio" (t.to_value (t.ratio p.ratio_numerator p.ratio_denominator)) (
        field "support" (int p.support)
          (field "label_counts" (obj (label_items p.label_counts)) end)))

  pub record Ranked : Type 0 where
    pub score : F
    pub index : ℕ
    pub item : Fields

  -- The prior that the loop finds for a finding.
  abbrev pub found_prior : Dict Key Prior → Fields → Option Prior
  found_prior priors f =
      prior_for priors (text_or t.text (lookup f "rule_id") "") (finding_language f)

  abbrev pub annotated : Dict Key Prior → F → Fields → Fields
  annotated priors default_score f =
      let p = found_prior priors f in
      set_field f "feedback" (obj (annotation (score_of default_score p) p))

  unfoldable pub rank_from : Dict Key Prior → F → ℕ → List Fields → List Ranked
  unfolding finding_language
  rank_from priors default_score index [] = []
  rank_from priors default_score index (f ∷ fs) =
      record {
        score = score_of default_score (found_prior priors f);
        index = index;
        item = annotated priors default_score f;
      }
      ∷ rank_from priors default_score (suc index) fs

  -- Higher score first, then higher confidence, then the earlier finding.
  abbrev pub rank_order : Ranked → Ranked → Bool
  rank_order a b = is_le (
      then_compare (t.compare_score b.score a.score) (
        then_compare
          (t.compare_confidence (lookup b.item "confidence") (lookup a.item "confidence"))
          (compare a.index b.index)))

  unfoldable pub rank_findings : List Fields → List FeedbackEvent → F → Ranking
  unfolding rank_from sorted build_priors
  rank_findings findings events default_score =
      let ordered = rank_from (build_priors events) default_score 0 findings in
      record {
        findings = map (λ (r : Ranked). r.item) (sorted rank_order ordered);
        ranked = length ordered;
        suppressed = 0;
      }
