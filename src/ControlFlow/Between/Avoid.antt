-- ===== src/ControlFlow/Between/Avoid.antt =====
-- `dominates_between` answers whether every path from one operation to another visits a third.
use smart_bench.Prelude.{
  ℕ, zero, suc, String, ◌≡◌, refl, ◌↔◌, ◌≢◌, true, false, not, ◌&&◌, ◌||◌, Option, none, some, List,
  [], ◌∷◌, ◌++◌, ◌==◌, string_eq, contains, filter, contains-filter, contains-append, Bool-cases,
  inl, inr, beq_refl, arith, ◌∙◌, sym, ap, ◌⊎◌, subst, length,
}
use smart_bench.Prelude.Dict
use smart_bench.Ir.Operations.{SemanticOperation, OperationEdge}
use smart_bench.Search.{
  Reaches, here, step, Strategy, IsFair, search, search_sound, search_complete,
}
use smart_bench.ControlFlow.Graph.{
  ControlFlowGraph, control_flow_graph, targets, same_scope, index_operations,
}
use smart_bench.ControlFlow.Linked.{linked, contains-targets, operations_lem}
use smart_bench.ControlFlow.Reach.{
  reachable, node_count, stop_at, stops_at, found, found-some, unfound_none, linked_inside,
}
use smart_bench.ControlFlow.Between.Loop.{avoid_loop, dominates_between}

-- The queue grows at its end by the targets that are neither the dominator nor visited.
abbrev avoiding_next : ControlFlowGraph → String → Strategy String
avoiding_next g d = record {
  next = λ v x. filter (λ b. not (b == d) && not (contains b v)) (targets g x);
  join = λ q n. q ++ n;
}

module _ (g : ControlFlowGraph) (d t : String) where
  avoid_loop-search :
      (fuel : ℕ) (v q : List String)
      → contains d q ≡ false
      → avoid_loop g d t fuel v q ≡ found (search (avoiding_next g d) (stop_at t) fuel v q)
  unfolding avoid_loop search
  avoid_loop-search fuel v [] h = refl
  avoid_loop-search zero v (x ∷ q) h =
      ground (arith, avoid_loop-search zero v q, string_eq.same_iff x d, string_eq.same_iff d x)
  avoid_loop-search (suc fuel) v (x ∷ q) h =
      let fresh : List String =
        filter (λ b. not (b == d) && not (contains b (x ∷ v))) (targets g x) in
      ground (
        arith,
        avoid_loop-search (suc fuel) v q,
        string_eq.same_iff x d,
        string_eq.same_iff d x,
        contains-append d q fresh,
        contains-filter (λ b. not (b == d) && not (contains b (x ∷ v))) d (targets g x),
        beq_refl d,
        avoid_loop-search fuel (x ∷ v) (q ++ fresh),
      )

scope_self : (a b : Option SemanticOperation) → same_scope a b ≡ true → same_scope b b ≡ true
scope_self none b h = absurd (cc)
scope_self (some a) none h = absurd (cc)
scope_self (some a) (some b) h = beq_refl b.scope_id

module _ (ops : List SemanticOperation) (es : List OperationEdge) where
  -- A path of one or more edges, with the operations that it visits after its start.
  pub data Walk : String → String → List String → Type 0 where
    one : {a b : String} → contains b (linked ops es a) ≡ true → Walk a b (b ∷ [])
    more :
        {a b c : String} {ns : List String}
        → contains b (linked ops es a) ≡ true
        → Walk b c ns
        → Walk a c (b ∷ ns)

  abbrev cfg : ControlFlowGraph
  cfg = control_flow_graph ops es

  module _ (d t : String) where
    avoiding : String → List String
    avoiding a = filter (λ b. not (b == d)) (linked ops es a)

    avoiding_next-IsFair : IsFair avoiding (avoiding_next cfg d)
    unfolding avoiding
    avoiding_next-IsFair = record {
      sound = λ v x y h. ground (
        arith,
        contains-filter (λ b. not (b == d) && not (contains b v)) y (targets cfg x),
        contains-filter (λ b. not (b == d)) y (linked ops es x),
        contains-targets ops es x y,
      );
      complete = λ v x y h. ground (
        arith,
        contains-filter (λ b. not (b == d) && not (contains b v)) y (targets cfg x),
        contains-filter (λ b. not (b == d)) y (linked ops es x),
        contains-targets ops es x y,
      );
      joins = λ q n y. contains-append y q n;
    }

    contains-avoiding :
        (a b : String) → contains b (avoiding a) ≡ (contains b (linked ops es a) && not (b == d))
    unfolding avoiding
    contains-avoiding a b = contains-filter (λ b. not (b == d)) b (linked ops es a)

    -- A walk past the dominator, as a run of the search.
    past :
        {a : String} {ns : List String}
        → Walk a t ns
        → contains d ns ≡ false
        → (b : String) × (contains b (avoiding a) ≡ true) × Reaches avoiding b t
    past (one {a = a} {b = b} h) m = (
      b,
      ground (arith, contains-avoiding a b, string_eq.same_iff b d, string_eq.same_iff d b),
      here,
    )
    past (more {a = a} {b = b} {ns = ns} h w) m =
        let (c, k, r) = past w (ground arith) in
        (
          b,
          ground (arith, contains-avoiding a b, string_eq.same_iff b d, string_eq.same_iff d b),
          step k r,
        )

    Walk-of :
        {b c : String} (a : String)
        → contains b (avoiding a) ≡ true
        → Reaches avoiding b c
        → (ns : List String) × Walk a c ns × (contains d ns ≡ false)
    Walk-of a h (here {a = b}) = (
      b ∷ [],
      one (ground (arith, contains-avoiding a b)),
      ground (arith, contains-avoiding a b, string_eq.same_iff b d, string_eq.same_iff d b),
    )
    Walk-of a h (step {a = b} {b = e} k r) =
        let (ns, w, m) = Walk-of b k r in
        (
          b ∷ ns,
          more (ground (arith, contains-avoiding a b)) w,
          ground (arith, contains-avoiding a b, string_eq.same_iff b d, string_eq.same_iff d b),
        )

    queue_clear : (a : String) → contains d (filter (λ b. not (b == d)) (targets cfg a)) ≡ false
    queue_clear a =
        ground (arith, contains-filter (λ b. not (b == d)) d (targets cfg a), beq_refl d)

    start_avoiding :
        (a b : String)
        → contains b (filter (λ b. not (b == d)) (targets cfg a)) ≡ contains b (avoiding a)
    start_avoiding a b = ground (
      arith,
      contains-filter (λ b. not (b == d)) b (targets cfg a),
      contains-avoiding a b,
      contains-targets ops es a b,
    )

    abbrev start_queue : String → List String
    start_queue a = filter (λ b. not (b == d)) (targets cfg a)

    -- The search finds the target exactly if a walk leads past the dominator.
    avoid_sound :
        (a : String) (n : ℕ)
        → avoid_loop cfg d t n [] (start_queue a) ≡ true
        → (ns : List String) × Walk a t ns × (contains d ns ≡ false)
    avoid_sound a n h =
        let (w, e) =
          found-some _ (sym (avoid_loop-search cfg d t n [] (start_queue a) (queue_clear a)) ∙ h) in
        let (x, y, m, r, k) =
          search_sound (avoiding_next cfg d) avoiding_next-IsFair (stop_at t) n [] (start_queue a) w
            e in
        Walk-of a (sym (start_avoiding a x) ∙ m) (subst (Reaches avoiding x) (stops_at t y w k) r)

    avoiding_inside :
        (a b : String)
        → contains b (avoiding a) ≡ true
        → contains b (Dict.keys (index_operations [] ops)) ≡ true
    avoiding_inside a b h = linked_inside ops es a b (ground (arith, contains-avoiding a b))

    avoid_complete :
        {a : String} {ns : List String}
        → avoid_loop cfg d t (node_count cfg) [] (start_queue a) ≡ false
        → Walk a t ns
        → contains d ns ≡ true
    unfolding node_count
    avoid_complete {a} {ns} h w = elim (Bool-cases (contains d ns)) [
      | inl hit ↦ hit
      | inr miss ↦ absurd (clash (past w miss))
    ]
      where
        clash : (b : String) × (contains b (avoiding a) ≡ true) × Reaches avoiding b t → ⊥
        clash (b, k, r) = ground (
          arith,
          beq_refl t,
          search_complete (avoiding_next cfg d) avoiding_next-IsFair (stop_at t)
              (Dict.keys (index_operations [] ops)) (λ x y _. avoiding_inside x y) (start_queue a)
              (length (Dict.keys cfg.operations)) (rw operations_lem (omega arith))
              (λ y m. avoiding_inside a y (sym (start_avoiding a y) ∙ m))
              (unfound_none _
                (sym (avoid_loop-search cfg d t _ [] (start_queue a) (queue_clear a)) ∙ h))
              b t (start_avoiding a b ∙ k) r,
        )

  -- The guards passed, the query is the negated search, or true at once if it starts at the dominator.
  guarded :
      (s d t : String)
      → same_scope (Dict.get (index_operations [] ops) s) (Dict.get (index_operations [] ops) d)
        ≡ true
      → same_scope (Dict.get (index_operations [] ops) d) (Dict.get (index_operations [] ops) t)
        ≡ true
      → t ≢ d
      → dominates_between cfg s d t
        ≡ ((s == d) || not (avoid_loop cfg d t (node_count cfg) [] (start_queue d t s)))
  unfolding dominates_between
  guarded s d t hs ht ne = ground (
    arith,
    ap (λ x. Dict.get x s) (operations_lem ops es),
    ap (λ x. Dict.get x d) (operations_lem ops es),
    ap (λ x. Dict.get x t) (operations_lem ops es),
    string_eq.same_iff t d,
  )

  -- For three operations of one function, the last two of them different, the query says exactly whether
  -- every path of one or more edges from the first to the last visits the middle one, its start counted.
  pub dominates_between_iff :
      (start_id dominator_id operation_id : String)
      → same_scope
          (Dict.get (index_operations [] ops) start_id)
          (Dict.get (index_operations [] ops) dominator_id)
        ≡ true
      → same_scope
          (Dict.get (index_operations [] ops) dominator_id)
          (Dict.get (index_operations [] ops) operation_id)
        ≡ true
      → operation_id ≢ dominator_id
      → (dominates_between cfg start_id dominator_id operation_id ≡ true) ↔ (
          (ns : List String)
          → Walk start_id operation_id ns
          → contains dominator_id (start_id ∷ ns) ≡ true)
  dominates_between_iff s d t hs ht ne = (
    forward (Bool-cases (s == d)),
    backward (Bool-cases (avoid_loop cfg d t (node_count cfg) [] (start_queue d t s))),
  )
    where
      forward :
          ((s == d) ≡ true) ⊎ ((s == d) ≡ false)
          → dominates_between cfg s d t ≡ true
          → (ns : List String) → Walk s t ns
          → contains d (s ∷ ns) ≡ true
      forward (inl at_start) h ns w = ground (arith, string_eq.same_iff s d, string_eq.same_iff d s)
      forward (inr away) h ns w =
          ground
            (arith, avoid_complete d t {a = s} {ns = ns} (ground (arith, guarded s d t hs ht ne)) w)

      backward :
          (avoid_loop cfg d t (node_count cfg) [] (start_queue d t s) ≡ true)
            ⊎ (avoid_loop cfg d t (node_count cfg) [] (start_queue d t s) ≡ false)
          → ((ns : List String) → Walk s t ns → contains d (s ∷ ns) ≡ true)
          → dominates_between cfg s d t ≡ true
      backward (inr none_found) all = ground (arith, guarded s d t hs ht ne)
      backward (inl hit) all =
          let (ns, w, m) = avoid_sound d t s (node_count cfg) hit in
          ground (
            arith,
            guarded s d t hs ht ne,
            all ns w,
            string_eq.same_iff s d,
            string_eq.same_iff d s,
          )

  -- Asked about an operation as its own dominator, the query is that of reachability.
  pub dominates_between_self :
      (start_id operation_id : String)
      → same_scope
          (Dict.get (index_operations [] ops) start_id)
          (Dict.get (index_operations [] ops) operation_id)
        ≡ true
      → start_id ≢ operation_id
      → dominates_between cfg start_id operation_id operation_id
        ≡ reachable cfg start_id operation_id
  unfolding dominates_between
  dominates_between_self s t hs ne = ground (
    arith,
    ap (λ x. Dict.get x s) (operations_lem ops es),
    ap (λ x. Dict.get x t) (operations_lem ops es),
    string_eq.same_iff s t,
    beq_refl t,
    scope_self (Dict.get (index_operations [] ops) s) (Dict.get (index_operations [] ops) t) hs,
  )
