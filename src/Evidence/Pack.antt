-- ===== src/Evidence/Pack.antt =====
-- `SemanticFact`, `EvidencePack` and `EvidencePack.from_facts`. Confidence is left out; a predicate is its text.
use smart_bench.Prelude.{
  ℕ, String, ◌≡◌, inl, inr, refl, Bool, true, false, not, ◌&&◌, ◌||◌, Option, none, some, List, [],
  ◌∷◌, ◌++◌, nat_eq, string_eq, pair_eq, eqb, contains, contains-append, map, map-append,
  if◌then◌else◌, arith, Bool-cases, ◌∙◌, ap,
}
use smart_bench.Prelude.Dict.{Dict}
use smart_bench.Ir.Values.{Value}
use smart_bench.Ir.Operations.{EvidenceRef}

pub record SemanticFact : Type 0 where
  pub subject : String
  pub predicate : String
  pub object : String
  pub evidence : List EvidenceRef
  pub attributes : Dict String Value

pub record EvidencePack : Type 0 where
  pub query : String
  pub facts : List SemanticFact
  pub evidence : List EvidenceRef
  pub retrieval_trace : List String
  pub graph_version : String

abbrev pub RefKey : Type 0
RefKey = String × (ℕ × ℕ)

-- `ref.line_end or ref.line_start`
abbrev end_or_start : Option ℕ → ℕ → ℕ
end_or_start none start = start
end_or_start (some n) start = if eqb n 0 then start else n

abbrev pub ref_key : EvidenceRef → RefKey
ref_key r = (r.file_path, (r.line_start, end_or_start r.line_end r.line_start))

-- The loop over the references of one fact; `refs` and `seen` grow at the end.
unfoldable pub add_refs :
    List EvidenceRef → List RefKey → List EvidenceRef → List EvidenceRef × List RefKey
add_refs refs seen [] = (refs, seen)
add_refs refs seen (r ∷ rs) =
    if contains (ref_key r) seen
    then add_refs refs seen rs
    else add_refs (refs ++ r ∷ []) (seen ++ ref_key r ∷ []) rs

unfoldable pub add_facts :
    List EvidenceRef → List RefKey → List SemanticFact → List EvidenceRef × List RefKey
unfolding add_refs
add_facts refs seen [] = (refs, seen)
add_facts refs seen (f ∷ fs) = let p = add_refs refs seen f.evidence in add_facts p.0 p.1 fs

unfoldable pub from_facts : String → List SemanticFact → List String → String → EvidencePack
unfolding add_facts
from_facts query facts retrieval_trace graph_version = record {
  query = query;
  facts = facts;
  evidence = (add_facts [] [] facts).0;
  retrieval_trace = retrieval_trace;
  graph_version = graph_version;
}

-- Whether no key comes twice.
abbrev pub no_repeat : List RefKey → Bool
no_repeat [] = true
no_repeat (k ∷ ks) = not (contains k ks) && no_repeat ks

no_repeat-snoc :
    (ks : List RefKey) (k : RefKey)
    → no_repeat ks ≡ true
    → contains k ks ≡ false
    → no_repeat (ks ++ k ∷ []) ≡ true
no_repeat-snoc [] k h n = refl
no_repeat-snoc (j ∷ ks) k h n = ground (
  arith,
  no_repeat-snoc ks k,
  contains-append j ks (k ∷ []),
  (pair_eq {A = String} {B = ℕ × ℕ}).same_iff k j,
  (pair_eq {A = String} {B = ℕ × ℕ}).same_iff j k,
)

-- The keys seen are those of the references kept, and no two are the same.
abbrev Tracked : List EvidenceRef × List RefKey → Type 0
Tracked p = (map ref_key p.0 ≡ p.1) × (no_repeat p.1 ≡ true)

add_refs-Tracked :
    (refs : List EvidenceRef) (seen : List RefKey) (rs : List EvidenceRef)
    → Tracked (refs, seen)
    → Tracked (add_refs refs seen rs)
unfolding add_refs
add_refs-Tracked refs seen [] h = h
add_refs-Tracked refs seen (r ∷ rs) h = elim (Bool-cases (contains (ref_key r) seen)) [
  | inl p ↦ rw (p) (add_refs-Tracked refs seen rs h)
  | inr p ↦ rw (p) (
      add_refs-Tracked (refs ++ r ∷ []) (seen ++ ref_key r ∷ []) rs (
        map-append ref_key refs (r ∷ []) ∙ ap (λ ks. ks ++ ref_key r ∷ []) h.0,
        no_repeat-snoc seen (ref_key r) h.1 p,
      ))
]

add_facts-Tracked :
    (refs : List EvidenceRef) (seen : List RefKey) (fs : List SemanticFact)
    → Tracked (refs, seen)
    → Tracked (add_facts refs seen fs)
unfolding add_facts
add_facts-Tracked refs seen [] h = h
add_facts-Tracked refs seen (f ∷ fs) h =
    add_facts-Tracked (add_refs refs seen f.evidence).0 (add_refs refs seen f.evidence).1 fs
      (add_refs-Tracked refs seen f.evidence h)

seen_kept :
    (refs : List EvidenceRef) (seen : List RefKey) (rs : List EvidenceRef) (k : RefKey)
    → contains k (add_refs refs seen rs).1 ≡ (contains k seen || contains k (map ref_key rs))
unfolding add_refs
seen_kept refs seen [] k = ground arith
seen_kept refs seen (r ∷ rs) k = ground (
  arith,
  seen_kept refs seen rs k,
  seen_kept (refs ++ r ∷ []) (seen ++ ref_key r ∷ []) rs k,
  contains-append k seen (ref_key r ∷ []),
  (pair_eq {A = String} {B = ℕ × ℕ}).same_iff k (ref_key r),
)

abbrev pub fact_refs : List SemanticFact → List EvidenceRef
fact_refs [] = []
fact_refs (f ∷ fs) = f.evidence ++ fact_refs fs

facts_kept :
    (refs : List EvidenceRef) (seen : List RefKey) (fs : List SemanticFact) (k : RefKey)
    → contains k (add_facts refs seen fs).1
      ≡ (contains k seen || contains k (map ref_key (fact_refs fs)))
unfolding add_facts
facts_kept refs seen [] k = ground arith
facts_kept refs seen (f ∷ fs) k = ground (
  arith,
  facts_kept (add_refs refs seen f.evidence).0 (add_refs refs seen f.evidence).1 fs k,
  seen_kept refs seen f.evidence k,
  ap (contains k) (map-append ref_key f.evidence (fact_refs fs)),
  contains-append k (map ref_key f.evidence) (map ref_key (fact_refs fs)),
)

-- The evidence of a pack has each place (file, first and last line) that some fact refers to, and each once.
pub from_facts_evidence :
    (query : String) (facts : List SemanticFact) (trace : List String) (version : String)
    → (no_repeat (map ref_key (from_facts query facts trace version).evidence) ≡ true)
      × ((k : RefKey)
          → contains k (map ref_key (from_facts query facts trace version).evidence)
            ≡ contains k (map ref_key (fact_refs facts)))
unfolding from_facts
from_facts_evidence query facts trace version =
    let t = add_facts-Tracked [] [] facts (refl, refl) in
    (ap no_repeat t.0 ∙ t.1, λ k. ap (contains k) t.0 ∙ facts_kept [] [] facts k)
