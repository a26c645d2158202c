-- ===== src/Sharding/Packs.antt =====
-- `scope_evidence_pack` of smartbench/sharding/merge.py, without hypotheses, and the plan that it is applied to.
use Prim.Native.String.{String, ◌++◌ as push_str, ◌∷◌ as ◌▹◌}
use smart_bench.Prelude.{
  ℕ, ◌≡◌, inl, inr, refl, subst, ◌∙◌, Bool, true, false, not, ◌&&◌, ◌||◌, some, List, [], ◌∷◌, ◌++◌,
  ◌==◌, string_eq, any, filter, map, contains, contains-map, contains-map_inv, contains-filter,
  arith, IsIn, here, there, IsIn-filter, IsIn-filtered, Bool-cases,
}
use smart_bench.Ir.Operations.{EvidenceRef}
use smart_bench.Evidence.Pack.{SemanticFact, EvidencePack, from_facts}
use smart_bench.Sharding.Plan.{
  PathText, normalize, skipped, Shard, ShardPlan, build_shard_plan, wanted_paths, plan_files, count,
  count-append, plan_partition,
}

-- `text.endswith(suffix)`
unfoldable pub ends_with : String → String → Bool
ends_with String.[] suffix = suffix == ""
ends_with (c ▹ s) suffix = (c ▹ s) == suffix || ends_with s suffix

abbrev overlaps : String → String → Bool
overlaps path name = ends_with path (push_str "/" name) || ends_with name (push_str "/" path)

-- `_matches(value, files)`; `_normalize_path` is the plan's `_normalize`.
unfoldable pub is_match : PathText → List String → String → Bool
unfolding normalize ends_with
is_match pt files value =
    let path = normalize pt value in
    not (path == "") && (contains path files || any (overlaps path) files)

abbrev pub has_evidence_in : PathText → List String → SemanticFact → Bool
has_evidence_in pt files f = any (λ (r : EvidenceRef). is_match pt files r.file_path) f.evidence

unfoldable pub scope_evidence_pack : PathText → EvidencePack → Shard → EvidencePack
unfolding is_match from_facts
scope_evidence_pack pt pack shard =
    from_facts pack.query (filter (has_evidence_in pt (map (normalize pt) shard.files)) pack.facts)
      (pack.retrieval_trace ++ push_str "shard:" shard.shard_id ∷ []) pack.graph_version

-- A file that the plan lists is in one of its shards.
in_some_shard :
    (p : String) (shards : List Shard)
    → count p (plan_files shards) ≡ 1
    → (s : Shard) × IsIn s shards × (contains p s.files ≡ true)
in_some_shard p [] h = absurd (omega (arith, h))
in_some_shard p (s ∷ shards) h = elim (Bool-cases (contains p s.files)) [
  | inl e ↦ (s, here, e)
  | inr e ↦
      let (r, m, c) =
        in_some_shard p shards
          (omega (arith, h, count-append p s.files (plan_files shards), absent p s.files e)) in
      (r, there m, c)
]
  where
    absent : (q : String) (xs : List String) → contains q xs ≡ false → count q xs ≡ 0
    absent q [] e = refl
    absent q (x ∷ xs) e =
        ground (arith, absent q xs, string_eq.same_iff q x, string_eq.same_iff x q)

any-IsIn :
    (f : EvidenceRef → Bool) {r : EvidenceRef} {rs : List EvidenceRef}
    → IsIn r rs
    → f r ≡ true
    → any f rs ≡ true
any-IsIn f (here {xs}) e = ground (arith, e)
any-IsIn f (there {x} {xs} m) e = ground (arith, any-IsIn f m e)

wanted_nonempty :
    (pt : PathText) (p : String) (files : List String)
    → contains p (wanted_paths pt files) ≡ true
    → (p == "") ≡ false
wanted_nonempty pt p files c =
    let (a, m, e) =
      contains-map_inv (normalize pt) p
        (filter (λ q. not (normalize pt q == "") && not (skipped pt q)) files) c in
    ground
      (arith, contains-filter (λ q. not (normalize pt q == "") && not (skipped pt q)) a files, e)

-- Of a plan that is returned over some files, and a fact of a pack with evidence in one of these files, whose
-- path is not changed by normalizing it twice: some shard of the plan is given the fact. And the
-- facts that a shard is given are the pack's.
pub scope_evidence_pack-covers :
    (pt : PathText) (fuel : ℕ) (files : List String) (max_files max_shards : ℕ) (plan : ShardPlan)
    (pack : EvidencePack) (f : SemanticFact) (r : EvidenceRef)
    → build_shard_plan pt fuel files max_files max_shards ≡ some plan
    → IsIn f pack.facts
    → IsIn r f.evidence
    → contains (normalize pt r.file_path) (wanted_paths pt files) ≡ true
    → normalize pt (normalize pt r.file_path) ≡ normalize pt r.file_path
    → ((s : Shard) × IsIn s plan.shards × IsIn f (scope_evidence_pack pt pack s).facts)
      × ((s : Shard) (g : SemanticFact)
          → IsIn g (scope_evidence_pack pt pack s).facts
          → IsIn g pack.facts)
unfolding scope_evidence_pack is_match from_facts
scope_evidence_pack-covers pt fuel files max_files max_shards plan pack f r built m n wanted
      stable =
    let p = normalize pt r.file_path in
    let (s, i, c) =
      in_some_shard p plan.shards
        ((plan_partition pt fuel files max_files max_shards plan built).0 p ∙ rw (wanted) refl) in
    let listed =
      subst (λ q. contains q (map (normalize pt) s.files) ≡ true) stable
        (contains-map (normalize pt) p s.files c) in
    let matches =
      any-IsIn (λ (q : EvidenceRef). is_match pt (map (normalize pt) s.files) q.file_path) n
        (matched p (map (normalize pt) s.files) (wanted_nonempty pt p files wanted) listed) in
    (
      (s, i, IsIn-filtered (has_evidence_in pt (map (normalize pt) s.files)) m matches),
      λ u g k. (IsIn-filter (has_evidence_in pt (map (normalize pt) u.files)) pack.facts k).0,
    )
  where
    matched :
        (p : String) (names : List String)
        → (p == "") ≡ false
        → contains p names ≡ true
        → (not (p == "") && (contains p names || any (overlaps p) names)) ≡ true
    matched p names e c = rw (e, c) refl
