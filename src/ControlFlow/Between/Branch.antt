-- ===== src/ControlFlow/Between/Branch.antt =====
-- `branch_controls` answers whether exactly one outcome of a branch reaches an operation.
use smart_bench.Prelude.{
  ℕ, ◌+◌, String, ◌≡◌, refl, ◌↔◌, ◌⊎◌, ◌≢◌, Bool, true, false, ◌||◌, Option, none, some, List, [],
  ◌∷◌, map, ◌==◌, string_eq, contains, Bool-cases, inl, inr, beq→eq, beq_refl, arith, ◌∙◌, sym, ap₂,
  subst, length, any, any-contains, any_of_contains, or_cases,
}
use smart_bench.Prelude.Dict
use smart_bench.Ir.Operations.{
  SemanticOperation, OperationEdge, OperationEdgeKind, edge_kind_eq, true_branch, false_branch,
  loop_back,
}
use smart_bench.Search.{Reaches, here, search_sound, search_complete}
use smart_bench.ControlFlow.Graph.{
  ControlFlowGraph, control_flow_graph, successors_of, index_operations,
}
use smart_bench.ControlFlow.Linked.{contains-targets, operations_lem}
use smart_bench.ControlFlow.Reach.{node_count, found-some, unfound_none, linked_inside}
use smart_bench.ControlFlow.Between.Loop.{
  allowed_targets, without_loop, reachable_without, outcome, exactly_one, branch_controls,
}
use smart_bench.ControlFlow.Between.Without.{
  all_next, stop_before, all_next-IsFair, without_loop-search, extend, last_of, allowed_sub,
}

module _ (ops : List SemanticOperation) (es : List OperationEdge) where
  abbrev cfg : ControlFlowGraph
  cfg = control_flow_graph ops es

  module _ (forbidden : List OperationEdgeKind) where
    allowed_inside :
        (a b : String)
        → contains b (allowed_targets cfg forbidden a) ≡ true
        → contains b (Dict.keys (index_operations [] ops)) ≡ true
    allowed_inside a b h =
        linked_inside ops es a b
          (sym (contains-targets ops es a b) ∙ allowed_sub cfg b forbidden a b h)

    stop_before-some :
        (t y : String) (w : Unit {0})
        → stop_before cfg t forbidden y ≡ some w
        → contains t (allowed_targets cfg forbidden y) ≡ true
    stop_before-some t y w h = ground arith

    without_sound :
        (s t : String) (n : ℕ)
        → without_loop cfg t forbidden n [] (s ∷ []) ≡ true
        → Reaches (allowed_targets cfg forbidden) s t
    without_sound s t n h =
        let (w, e) = found-some _ (sym (without_loop-search cfg t forbidden n [] (s ∷ [])) ∙ h) in
        let (x, y, m, r, k) =
          search_sound (all_next cfg t forbidden) (all_next-IsFair cfg t forbidden)
            (stop_before cfg t forbidden) n [] (s ∷ []) w e in
        extend cfg t forbidden
          (subst (λ z. Reaches (allowed_targets cfg forbidden) z y) (only s x m) r)
          (stop_before-some t y w k)
      where
        only : (s x : String) → contains x (s ∷ []) ≡ true → x ≡ s
        only s x m = ground (arith, string_eq.same_iff x s)

    -- A node list with the start, which may be unknown, added.
    started_inside :
        (s x y : String)
        → contains x (s ∷ Dict.keys (index_operations [] ops)) ≡ true
        → contains y (allowed_targets cfg forbidden x) ≡ true
        → contains y (s ∷ Dict.keys (index_operations [] ops)) ≡ true
    started_inside s x y m h = ground (arith, allowed_inside x y h)

    without_complete :
        (s t b : String)
        → Reaches (allowed_targets cfg forbidden) s b
        → contains t (allowed_targets cfg forbidden b) ≡ true
        → without_loop cfg t forbidden (node_count cfg + 1) [] (s ∷ []) ≡ true
    unfolding node_count
    without_complete s t b r k =
        elim (Bool-cases
          (without_loop cfg t forbidden (length (Dict.keys cfg.operations) + 1) [] (s ∷ []))) [
            | inl hit ↦ hit
            | inr miss ↦ absurd (
                ground (
                  arith,
                  search_complete (all_next cfg t forbidden) (all_next-IsFair cfg t forbidden)
                      (stop_before cfg t forbidden) (s ∷ Dict.keys (index_operations [] ops))
                      (started_inside s) (s ∷ []) (length (Dict.keys cfg.operations) + 1)
                      (rw operations_lem (omega arith)) (λ y m. ground arith)
                      (unfound_none _
                        (sym (without_loop-search cfg t forbidden _ [] (s ∷ [])) ∙ miss))
                      s b (ground (arith, beq_refl s)) r,
                ))
          ]

    -- A path without edges of the forbidden kinds leads from one operation to the other exactly if the
    -- query says so.
    pub reachable_without_iff :
        (source_id target_id : String)
        → (reachable_without cfg source_id target_id forbidden ≡ true)
          ↔ Reaches (allowed_targets cfg forbidden) source_id target_id
    unfolding reachable_without
    reachable_without_iff s t = (forward (Bool-cases (s == t)), backward)
      where
        forward :
            ((s == t) ≡ true) ⊎ ((s == t) ≡ false)
            → reachable_without cfg s t forbidden ≡ true
            → Reaches (allowed_targets cfg forbidden) s t
        forward (inl same) h =
            subst (Reaches (allowed_targets cfg forbidden) s) (beq→eq s t same) here
        forward (inr other) h = without_sound s t (node_count cfg + 1) (ground arith)

        backward :
            Reaches (allowed_targets cfg forbidden) s t → reachable_without cfg s t forbidden ≡ true
        backward r = elim (last_of cfg t forbidden r) [
          | inl e ↦ ground (arith, string_eq.same_iff s t)
          | inr (b, q, k) ↦ ground (arith, without_complete s t b q k)
        ]

  abbrev branch_ends : String → OperationEdgeKind → List String
  branch_ends b k = map (λ arc. arc.target_id) (successors_of cfg b (k ∷ []))

  -- One outcome of a branch reaches an operation by a path that does not go round a loop.
  pub Arrives : String → String → OperationEdgeKind → Type 0
  Arrives b t k =
      (x : String) × (contains x (branch_ends b k) ≡ true)
      × Reaches (allowed_targets cfg (loop_back ∷ [])) x t

  abbrev arrival_test : String → String → Bool
  arrival_test t x = x == t || reachable_without cfg x t (loop_back ∷ [])

  arrival_true :
      (b t : String) (k : OperationEdgeKind)
      → any (arrival_test t) (branch_ends b k) ≡ true
      → Arrives b t k
  unfolding Arrives
  arrival_true b t k h =
      let (x, m, p) = any-contains (arrival_test t) (branch_ends b k) h in
      (
        x,
        m,
        elim (or_cases (x == t) (reachable_without cfg x t (loop_back ∷ [])) p) [
          | inl e ↦ subst (Reaches (allowed_targets cfg (loop_back ∷ [])) x) (beq→eq x t e) here
          | inr r ↦ (reachable_without_iff (loop_back ∷ []) x t).0 r
        ],
      )

  true_arrival :
      (b t : String) (k : OperationEdgeKind)
      → Arrives b t k
      → any (arrival_test t) (branch_ends b k) ≡ true
  unfolding Arrives
  true_arrival b t k (x, m, r) =
      any_of_contains (arrival_test t) (branch_ends b k) x m
        (ground (arith, (reachable_without_iff (loop_back ∷ []) x t).1 r))

  abbrev arrival : List String → String → Option Bool
  arrival [] t = none
  arrival (x ∷ xs) t = some (any (arrival_test t) (x ∷ xs))

  outcome-arrival :
      (b t : String) (k : OperationEdgeKind) → outcome cfg b t k ≡ arrival (branch_ends b k) t
  unfolding outcome successors_of
  outcome-arrival b t k = ground arith

  -- Both outcomes of the branch lead on, and exactly one of them reaches the operation.
  pub record Controls (b t : String) : Type 0 where
    pub on_true : branch_ends b true_branch ≢ []
    pub on_false : branch_ends b false_branch ≢ []
    pub exclusive :
        (Arrives b t true_branch × (¬ Arrives b t false_branch))
        ⊎ ((¬ Arrives b t true_branch) × Arrives b t false_branch)

  abbrev OneOf : Bool → Bool → Type 0
  OneOf a b = ((a ≡ true) × (b ≡ false)) ⊎ ((a ≡ false) × (b ≡ true))

  exactly_one-true :
      (xs ys : List String) (t : String)
      → exactly_one (arrival xs t) (arrival ys t) ≡ true
      → (xs ≢ []) × (ys ≢ []) × OneOf (any (arrival_test t) xs) (any (arrival_test t) ys)
  exactly_one-true [] ys t h = absurd (cc)
  exactly_one-true (x ∷ xs) [] t h = absurd (cc)
  exactly_one-true (x ∷ xs) (y ∷ ys) t h =
      ((λ e. cc), (λ e. cc), one (any (arrival_test t) (x ∷ xs)) (any (arrival_test t) (y ∷ ys)) h)
    where
      one : (a b : Bool) → exactly_one (some a) (some b) ≡ true → OneOf a b
      one true b h = inl (refl, ground arith)
      one false b h = inr (refl, h)

  true-exactly_one :
      (xs ys : List String) (t : String)
      → xs ≢ []
      → ys ≢ []
      → OneOf (any (arrival_test t) xs) (any (arrival_test t) ys)
      → exactly_one (arrival xs t) (arrival ys t) ≡ true
  true-exactly_one [] ys t n m o = absurd (n refl)
  true-exactly_one (x ∷ xs) [] t n m o = absurd (m refl)
  true-exactly_one (x ∷ xs) (y ∷ ys) t n m o =
      one (any (arrival_test t) (x ∷ xs)) (any (arrival_test t) (y ∷ ys)) o
    where
      one : (a b : Bool) → OneOf a b → exactly_one (some a) (some b) ≡ true
      one true b (inl (h, k)) = ground arith
      one false b (inl (h, k)) = absurd (cc)
      one true b (inr (h, k)) = absurd (cc)
      one false b (inr (h, k)) = k

  not_arrival :
      (b t : String) (k : OperationEdgeKind)
      → any (arrival_test t) (branch_ends b k) ≡ false
      → ¬ Arrives b t k
  not_arrival b t k h a = cc (true_arrival b t k a)

  no_arrival :
      (b t : String) (k : OperationEdgeKind)
      → ¬ Arrives b t k
      → any (arrival_test t) (branch_ends b k) ≡ false
  no_arrival b t k n = elim (Bool-cases (any (arrival_test t) (branch_ends b k))) [
    | inl hit ↦ absurd (n (arrival_true b t k hit))
    | inr miss ↦ miss
  ]

  -- The query holds exactly if the branch has edges for both outcomes and one of the outcomes, but not the
  -- other, leads to the operation without a loop-back edge.
  pub branch_controls_iff :
      (branch_id operation_id : String)
      → (branch_controls cfg branch_id operation_id ≡ true) ↔ Controls branch_id operation_id
  unfolding branch_controls
  branch_controls_iff b t = (forward, backward)
    where
      ends :
          branch_controls cfg b t
          ≡ exactly_one
              (arrival (branch_ends b true_branch) t)
              (arrival (branch_ends b false_branch) t)
      ends = ap₂ exactly_one (outcome-arrival b t true_branch) (outcome-arrival b t false_branch)

      forward : branch_controls cfg b t ≡ true → Controls b t
      forward h =
          let (n, m, o) =
            exactly_one-true (branch_ends b true_branch) (branch_ends b false_branch) t
              (sym ends ∙ h) in
          record {
            on_true = n;
            on_false = m;
            exclusive = elim o [
              | inl (x, y) ↦ inl (arrival_true b t true_branch x, not_arrival b t false_branch y)
              | inr (x, y) ↦ inr (not_arrival b t true_branch x, arrival_true b t false_branch y)
            ];
          }

      backward : Controls b t → branch_controls cfg b t ≡ true
      backward c =
          ends
          ∙ true-exactly_one (branch_ends b true_branch) (branch_ends b false_branch) t c.on_true
              c.on_false
              (elim c.exclusive [
                | inl (x, y) ↦ inl (true_arrival b t true_branch x, no_arrival b t false_branch y)
                | inr (x, y) ↦ inr (no_arrival b t true_branch x, true_arrival b t false_branch y)
              ])
