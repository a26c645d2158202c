-- ===== src/ControlFlow/Dominators/Sweep.antt =====
-- The iteration ends, within its fuel, in sets that no further round changes.
use smart_bench.Prelude.{
  ℕ, zero, suc, ◌+◌, ◌*◌, ◌≤◌, ◌<◌, String, ◌≡◌, ◌⊎◌, refl, Bool, true, false, List, [], ◌∷◌, ◌==◌,
  string_eq, contains, length, if◌then◌else◌, arith, beq_refl, Bool-cases, Option, some, inl, inr,
  beq→eq, subst, sym,
}
use smart_bench.Prelude.Dict
use smart_bench.ControlFlow.Graph.{ControlFlowGraph}
use smart_bench.ControlFlow.Dominators.Loop.{
  DominatorSets, updated, same_set, predecessors_in, visit, sweep, iterate,
}
use smart_bench.ControlFlow.Dominators.Sets.{
  Sub, at, updated-mono, lost, weight, weight_mono, weight-lt, weight-le,
}

abbrev pub total : List String → List String → DominatorSets → ℕ
total nodes [] d = 0
total nodes (n ∷ ns) d = weight nodes (at d n) + total nodes ns d

total_mono :
    (nodes ns : List String) (d d' : DominatorSets)
    → ((m : String) → Sub (at d' m) (at d m))
    → total nodes ns d' ≤ total nodes ns d
total_mono nodes [] d d' h = omega arith
total_mono nodes (n ∷ ns) d d' h =
    omega (arith, weight_mono nodes (at d' n) (at d n) (h n), total_mono nodes ns d d' h)

total-lt :
    (nodes ns : List String) (d d' : DominatorSets) (n : String)
    → ((m : String) → Sub (at d' m) (at d m))
    → contains n ns ≡ true
    → weight nodes (at d' n) < weight nodes (at d n)
    → total nodes ns d' < total nodes ns d
total-lt nodes [] d d' n h m k = absurd (cc)
total-lt nodes (x ∷ ns) d d' n h m k = elim (Bool-cases (n == x)) [
  | inl e ↦ omega (
    arith,
    subst (λ y. weight nodes (at d' y) < weight nodes (at d y)) (beq→eq n x e) k,
    total_mono nodes ns d d' h,
  )
  | inr o ↦ omega (
    arith,
    weight_mono nodes (at d' x) (at d x) (h x),
    total-lt nodes ns d d' n h (ground arith) k,
  )
]

pub total-le :
    (nodes ns : List String) (d : DominatorSets) → total nodes ns d ≤ length ns * length nodes
total-le nodes [] d = omega arith
total-le nodes (n ∷ ns) d = omega (arith, weight-le nodes (at d n), total-le nodes ns d)

module _ (g : ControlFlowGraph) (nodes order : List String) where
  abbrev pub round : DominatorSets → String → List String
  round d n = updated d n (predecessors_in g nodes n)

  -- A round only takes elements away, and sets hold operations of the function only.
  pub record IsShrinking (d : DominatorSets) : Type 0 where
    pub shrinks : (n : String) → contains n order ≡ true → Sub (round d n) (at d n)
    pub inside : (n : String) → contains n order ≡ true → Sub (at d n) nodes

  at-insert :
      (d : DominatorSets) (n m : String) (u : List String)
      → at (Dict.insert d n u) m ≡ (if n == m then u else at d m)
  at-insert d n m u = Dict.get_or-insert d n m u []

  smaller :
      (d : DominatorSets) (n : String)
      → contains n order ≡ true
      → IsShrinking d
      → (m : String) → Sub (at (Dict.insert d n (round d n)) m) (at d m)
  smaller d n o s m x h = elim (Bool-cases (n == m)) [
    | inl e ↦
        subst (λ y. contains x (at d y) ≡ true) (beq→eq n m e)
          (s.shrinks n o x (ground (arith, at-insert d n m (round d n))))
    | inr e ↦ ground (arith, at-insert d n m (round d n))
  ]

  insert-IsShrinking :
      (d : DominatorSets) (n : String)
      → contains n order ≡ true
      → IsShrinking d
      → IsShrinking (Dict.insert d n (round d n))
  insert-IsShrinking d n o s = record {
    shrinks = λ m k x h.
        let small =
          updated-mono d (Dict.insert d n (round d n)) m (predecessors_in g nodes m)
            (smaller d n o s) x h in
        elim (Bool-cases (n == m)) [
          | inl e ↦ ground (
            arith,
            at-insert d n m (round d n),
            subst (λ y. contains x (round d y) ≡ true) (sym (beq→eq n m e)) small,
          )
          | inr e ↦ ground (arith, at-insert d n m (round d n), s.shrinks m k x small)
        ];
    inside = λ m k x h. s.inside m k x (smaller d n o s m x h);
  }

  visit-IsShrinking :
      (d : DominatorSets) (c : Bool) (n : String)
      → contains n order ≡ true
      → IsShrinking d
      → IsShrinking (visit g nodes (d, c) n).0
  unfolding visit
  visit-IsShrinking d c n o s = elim (Bool-cases (same_set (round d n) (at d n))) [
    | inl e ↦ rw e s
    | inr e ↦ rw e (insert-IsShrinking d n o s)
  ]

  -- What a visit does: nothing, or a change that makes the sets smaller.
  visit_cases :
      (d : DominatorSets) (c : Bool) (n : String)
      → contains n order ≡ true
      → IsShrinking d
      → ((visit g nodes (d, c) n ≡ (d, c)) × (same_set (round d n) (at d n) ≡ true))
        ⊎ ((total nodes order (visit g nodes (d, c) n).0 < total nodes order d)
            × ((visit g nodes (d, c) n).1 ≡ true))
  unfolding visit
  visit_cases d c n o s = elim (Bool-cases (same_set (round d n) (at d n))) [
    | inl e ↦ inl (rw e refl, e)
    | inr e ↦
        let (x, m, k) = lost (round d n) (at d n) (s.shrinks n o) e in
        inr (
          rw e (
              total-lt nodes order d (Dict.insert d n (round d n)) n (smaller d n o s) o (
                rw (at-insert d n n (round d n), beq_refl n)
                  (weight-lt nodes (round d n) (at d n) x (s.shrinks n o) (s.inside n o x m) m k))),
          rw e refl,
        )
  ]

  abbrev pub IsStable : DominatorSets → List String → Type 0
  IsStable d ns = (n : String) → contains n ns ≡ true → same_set (round d n) (at d n) ≡ true

  abbrev IsChange : DominatorSets → DominatorSets × Bool → Type 0
  IsChange d r = (total nodes order r.0 < total nodes order d) × (r.1 ≡ true)

  abbrev Swept : DominatorSets → Bool → List String → DominatorSets × Bool → Type 0
  Swept d c ns r = IsShrinking r.0 × (((r ≡ (d, c)) × IsStable d ns) ⊎ IsChange d r)

  Swept-unchanged :
      (d : DominatorSets) (c : Bool) (n : String) (ns : List String) (r : DominatorSets × Bool)
      → same_set (round d n) (at d n) ≡ true
      → Swept d c ns r
      → Swept d c (n ∷ ns) r
  Swept-unchanged d c n ns r st (k, inr x) = (k, inr x)
  Swept-unchanged d c n ns r st (k, inl (e, f)) = (
    k,
    inl (
      e,
      λ m h. elim (Bool-cases (m == n)) [
        | inl p ↦ subst (λ y. same_set (round d y) (at d y) ≡ true) (sym (beq→eq m n p)) st
        | inr p ↦ f m (ground arith)
      ],
    ),
  )

  Swept-changed :
      (d : DominatorSets) (c : Bool) (n : String) (ns : List String) (v r : DominatorSets × Bool)
      → IsChange d v
      → Swept v.0 v.1 ns r
      → Swept d c (n ∷ ns) r
  Swept-changed d c n ns v r (lt, t) (k, inl (e, f)) = (
    k,
    inr (
      subst (λ z. total nodes order z.0 < total nodes order d) (sym e) lt,
      subst (λ z. z.1 ≡ true) (sym e) t,
    ),
  )
  Swept-changed d c n ns v r (lt, t) (k, inr (lt', t')) = (k, inr (omega arith, t'))

  -- What a sweep does: nothing, and then no set changes under a round; or the sets get smaller.
  sweep_cases :
      (d : DominatorSets) (c : Bool) (ns : List String)
      → ((n : String) → contains n ns ≡ true → contains n order ≡ true)
      → IsShrinking d
      → Swept d c ns (sweep g nodes (d, c) ns)
  unfolding sweep
  sweep_cases d c [] o s = (s, inl (refl, λ n h. absurd (cc)))
  sweep_cases d c (n ∷ ns) o s = elim (visit_cases d c n here s) [
    | inl (e, stable) ↦
        subst (λ v. Swept d c (n ∷ ns) (sweep g nodes v ns)) (sym e)
          (Swept-unchanged d c n ns (sweep g nodes (d, c) ns) stable (sweep_cases d c ns later s))
    | inr change ↦
        Swept-changed d c n ns (visit g nodes (d, c) n) (sweep g nodes (visit g nodes (d, c) n) ns)
          change
          (sweep_cases (visit g nodes (d, c) n).0 (visit g nodes (d, c) n).1 ns later
            (visit-IsShrinking d c n here s))
  ]
    where
      here : contains n order ≡ true
      here = o n (ground (arith, beq_refl n))

      later : (m : String) → contains m ns ≡ true → contains m order ≡ true
      later m h = o m (ground arith)

  -- What every round keeps, the iteration keeps.
  module _ (P : DominatorSets → Type 0)
      (keep : (d : DominatorSets) (n : String)
        → contains n order ≡ true
        → P d
        → P (Dict.insert d n (round d n))) where
    visit_keeps :
        (d : DominatorSets) (c : Bool) (n : String)
        → contains n order ≡ true
        → P d
        → P (visit g nodes (d, c) n).0
    unfolding visit
    visit_keeps d c n o p = elim (Bool-cases (same_set (round d n) (at d n))) [
      | inl e ↦ rw e p
      | inr e ↦ rw e (keep d n o p)
    ]

    sweep_keeps :
        (d : DominatorSets) (c : Bool) (ns : List String)
        → ((n : String) → contains n ns ≡ true → contains n order ≡ true)
        → P d
        → P (sweep g nodes (d, c) ns).0
    unfolding sweep
    sweep_keeps d c [] o p = p
    sweep_keeps d c (n ∷ ns) o p =
        sweep_keeps (visit g nodes (d, c) n).0 (visit g nodes (d, c) n).1 ns
          (λ m h. o m (ground arith)) (visit_keeps d c n (o n (ground (arith, beq_refl n))) p)

    abbrev pub Ends : Option DominatorSets → Type 0
    Ends r = (d : DominatorSets) × (r ≡ some d) × P d × IsStable d order

    -- With more fuel than the sets have elements the iteration ends, and its sets are stable.
    pub iterate_lem :
        (fuel : ℕ) (d : DominatorSets)
        → total nodes order d < fuel
        → IsShrinking d
        → P d
        → Ends (iterate g nodes order fuel d)
    unfolding iterate
    iterate_lem zero d f s p = absurd (omega arith)
    iterate_lem (suc fuel) d f s p =
        by_sweep (iterate_lem fuel (sweep g nodes (d, false) order).0)
          (sweep_cases d false order (λ n h. h) s)
      where
        kept : P (sweep g nodes (d, false) order).0
        kept = sweep_keeps d false order (λ n h. h) p

        by_sweep :
            (total nodes order (sweep g nodes (d, false) order).0 < fuel
              → IsShrinking (sweep g nodes (d, false) order).0
              → P (sweep g nodes (d, false) order).0
              → Ends (iterate g nodes order fuel (sweep g nodes (d, false) order).0))
            → Swept d false order (sweep g nodes (d, false) order)
            → Ends (iterate g nodes order (suc fuel) d)
        by_sweep again (k, inl (e, stable)) = (d, ground (arith, e), p, stable)
        by_sweep again (k, inr (lt, t)) = subst Ends (ground arith) (again (omega arith) k kept)
