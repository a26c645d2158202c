-- ===== src/ControlFlow/Dominators/Correct.antt =====
-- `dominates` answers whether every path from an entry of the function visits an operation.
use smart_bench.Prelude.{
  ◌+◌, ◌*◌, ◌≤◌, ◌<◌, String, ◌≡◌, ◌↔◌, refl, true, false, not, ◌&&◌, ◌||◌, List, [], ◌∷◌, ◌==◌,
  string_eq, contains, contains-filter, filter, all, all-contains, all_of_contains, length,
  length-filter-le, length-sorted, if◌then◌else◌, arith, Bool-cases, some, inl, inr, beq→eq, subst,
  sym, ap, ◌∙◌, str_leb, sorted, contains-sorted,
}
use native.Mathlib.Nat.{mul-le-mul_right}
use smart_bench.Prelude.Dict
use smart_bench.Ir.Operations.{SemanticOperation, OperationEdge}
use smart_bench.ControlFlow.Graph.{ControlFlowGraph, control_flow_graph, index_operations, sources}
use smart_bench.ControlFlow.Linked.{linked, operations_lem}
use smart_bench.ControlFlow.Dominators.Loop.{
  DominatorSets, entries_of, initial_sets, predecessors_in, dominators, dominates, set_at,
}
use smart_bench.ControlFlow.Dominators.Sets.{Sub, at, nonempty, contains-updated, same_set_sub}
use smart_bench.ControlFlow.Dominators.Sweep.{
  IsShrinking, iterate_lem, total, total-le, Ends, IsStable, round,
}
use smart_bench.ControlFlow.Dominators.Nodes.{nodes, scope_in, linked_in, predecessor_iff}
use smart_bench.ControlFlow.Dominators.Entries.{
  nonempty-filter, nonempty-all, entry_node, not_entry,
}

module _ (ops : List SemanticOperation) (es : List OperationEdge) (scope : String) where
  abbrev cfg : ControlFlowGraph
  cfg = control_flow_graph ops es

  abbrev scoped : List String
  scoped = nodes ops es scope

  abbrev entries : List String
  entries = entries_of cfg scoped

  abbrev order : List String
  order = sorted str_leb (filter (λ n. not (contains n entries)) scoped)

  -- A path from an entry of the function, with the operations that it visits, the last one first.
  pub data Route : String → List String → Type 0 where
    start : {n : String} → contains n entries ≡ true → Route n (n ∷ [])
    onward :
        {a b : String} {ns : List String}
        → contains b (linked ops es a) ≡ true
        → Route a ns
        → Route b (b ∷ ns)

  contains-order : (n : String) → contains n order ≡ (contains n scoped && not (contains n entries))
  contains-order n =
      contains-sorted str_leb n _ ∙ contains-filter (λ n. not (contains n entries)) n scoped

  route_node : {n : String} {ns : List String} → Route n ns → contains n scoped ≡ true
  route_node (start {n} h) = entry_node cfg scoped n h
  route_node (onward {a} {b} h r) = linked_in ops es scope a b (route_node r) h

  -- What the iteration keeps: entries stand alone, and no true dominator is lost.
  record IsUpper (d : DominatorSets) : Type 0 where
    alone : (n : String) → contains n entries ≡ true → at d n ≡ n ∷ []
    upper :
        (n x : String)
        → contains n scoped ≡ true
        → contains x scoped ≡ true
        → ((ns : List String) → Route n ns → contains x ns ≡ true)
        → contains x (at d n) ≡ true

  round_upper :
      (d : DominatorSets) (n x : String)
      → IsUpper d
      → contains n order ≡ true
      → contains x scoped ≡ true
      → ((ns : List String) → Route n ns → contains x ns ≡ true)
      → contains x (round cfg scoped order d n) ≡ true
  round_upper d n x u o m all_routes = elim (Bool-cases (x == n)) [
    | inl e ↦ ground (arith, contains-updated d n (predecessors_in cfg scoped n) x)
    | inr ne ↦
        ground (arith, contains-updated d n (predecessors_in cfg scoped n) x, filled, everywhere ne)
  ]
    where
      filled : nonempty (predecessors_in cfg scoped n) ≡ true
      filled =
          unfold predecessors_in in
          nonempty-filter (λ s. contains s scoped) (sources cfg n)
            (not_entry cfg scoped n (ground (arith, contains-order n))
              (ground (arith, contains-order n)))

      everywhere :
          (x == n) ≡ false → all (λ q. contains x (at d q)) (predecessors_in cfg scoped n) ≡ true
      everywhere ne =
          all_of_contains (λ q. contains x (at d q)) (predecessors_in cfg scoped n)
            (λ q k. u.upper q x (ground (arith, predecessor_iff ops es scope q n)) m (λ ns w.
              ground (
                arith,
                all_routes (n ∷ ns) (onward (ground (arith, predecessor_iff ops es scope q n)) w),
              )))

  round_keeps :
      (d : DominatorSets) (n : String)
      → contains n order ≡ true
      → IsUpper d
      → IsUpper (Dict.insert d n (round cfg scoped order d n))
  round_keeps d n o u = record {
    alone = λ m h. ground (
      arith,
      Dict.get_or-insert d n m (round cfg scoped order d n) [],
      u.alone m h,
      contains-order n,
      string_eq.same_iff n m,
    );
    upper = λ m x k l r. elim (Bool-cases (n == m)) [
      | inl e ↦ ground (
        arith,
        Dict.get_or-insert d n m (round cfg scoped order d n) [],
        round_upper d n x u o l (λ ns w. r ns (subst (λ y. Route y ns) (beq→eq n m e) w)),
      )
      | inr e ↦
          ground
            (arith, Dict.get_or-insert d n m (round cfg scoped order d n) [], u.upper m x k l r)
    ];
  }

  -- A set that a sweep leaves as it is holds nothing but true dominators.
  stable_lower :
      (d : DominatorSets)
      → IsUpper d
      → IsStable cfg scoped order d order
      → (x : String) {n : String} {ns : List String} → Route n ns
      → contains x (at d n) ≡ true
      → contains x ns ≡ true
  stable_lower d u st x (start {n} h) m = ground (arith, u.alone n h)
  stable_lower d u st x (onward {a} {b} {ns} h r) m = elim (Bool-cases (contains b entries)) [
    | inl e ↦ ground (arith, u.alone b e)
    | inr e ↦
        inner
          (sym (contains-updated d b (predecessors_in cfg scoped b) x)
            ∙ same_set_sub (round cfg scoped order d b) (at d b)
                (st b (ground (arith, contains-order b, route_node (onward h r)))) x m)
          (stable_lower d u st x r)
  ]
    where
      inner :
          (x == b
              || (nonempty (predecessors_in cfg scoped b)
                  && all (λ q. contains x (at d q)) (predecessors_in cfg scoped b)))
            ≡ true
          → (contains x (at d a) ≡ true → contains x ns ≡ true)
          → contains x (b ∷ ns) ≡ true
      inner k f = ground (
        arith,
        all-contains (λ q. contains x (at d q)) (predecessors_in cfg scoped b) a,
        predecessor_iff ops es scope a b,
        route_node r,
        f,
      )

  abbrev first_sets : DominatorSets
  first_sets = initial_sets scoped entries scoped []

  at-initial :
      (ns : List String) (d : DominatorSets) (m : String)
      → at (initial_sets scoped entries ns d) m
        ≡ (if contains m ns then (if contains m entries then m ∷ [] else scoped) else at d m)
  unfolding initial_sets
  at-initial [] d m = refl
  at-initial (n ∷ ns) d m = ground (
    arith,
    at-initial ns (Dict.insert d n (if contains n entries then n ∷ [] else scoped)) m,
    Dict.get_or-insert d n m (if contains n entries then n ∷ [] else scoped) [],
    string_eq.same_iff n m,
    string_eq.same_iff m n,
  )

  first_inside : (n : String) → contains n scoped ≡ true → Sub (at first_sets n) scoped
  first_inside n m x h = ground (arith, at-initial scoped [] n, string_eq.same_iff x n)

  first_IsUpper : IsUpper first_sets
  first_IsUpper = record {
    alone = λ n h. ground (arith, at-initial scoped [] n, entry_node cfg scoped n h);
    upper = λ n x m k r. elim (Bool-cases (contains n entries)) [
      | inl e ↦ ground (arith, at-initial scoped [] n, r (n ∷ []) (start e))
      | inr e ↦ ground (arith, at-initial scoped [] n)
    ];
  }

  first_IsShrinking : IsShrinking cfg scoped order first_sets
  first_IsShrinking = record {
    shrinks = λ n o x h. ground (
      arith,
      at-initial scoped [] n,
      contains-order n,
      from_round n x (ground (arith, contains-order n)) h,
    );
    inside = λ n o. first_inside n (ground (arith, contains-order n));
  }
    where
      from_round :
          (n x : String)
          → contains n scoped ≡ true
          → contains x (round cfg scoped order first_sets n) ≡ true
          → contains x scoped ≡ true
      from_round n x m h = elim (Bool-cases (x == n)) [
        | inl e ↦ ground (arith, string_eq.same_iff x n)
        | inr e ↦
            let k : (nonempty (predecessors_in cfg scoped n)
                  && all (λ q. contains x (at first_sets q)) (predecessors_in cfg scoped n))
                ≡ true =
              ground (arith, contains-updated first_sets n (predecessors_in cfg scoped n) x) in
            let (p, i, j) =
              nonempty-all (λ q. contains x (at first_sets q)) (predecessors_in cfg scoped n)
                (ground arith) (ground arith) in
            first_inside p (ground (arith, predecessor_iff ops es scope p n)) x j
      ]

  length-order : length order ≤ length scoped
  length-order = omega (
    arith,
    length-sorted str_leb (filter (λ n. not (contains n entries)) scoped),
    length-filter-le (λ n. not (contains n entries)) scoped,
  )

  enough : total scoped order first_sets < length scoped * length scoped + 1
  enough =
      omega (arith, total-le scoped order first_sets, mul-le-mul_right (length scoped) length-order)

  -- The fuel is enough: there are sets, stable and with every true dominator.
  dominators-Ends : Ends cfg scoped order IsUpper round_keeps (dominators cfg scope)
  unfolding dominators
  dominators-Ends =
      iterate_lem cfg scoped order IsUpper round_keeps (length scoped * length scoped + 1)
        first_sets enough first_IsShrinking first_IsUpper

  -- An operation of the function is in the set of another exactly if every path from an entry to the
  -- latter visits it.
  pub set_at_iff :
      (d n : String)
      → contains n scoped ≡ true
      → contains d scoped ≡ true
      → (contains d (set_at (dominators cfg scope) n) ≡ true)
        ↔ ((ns : List String) → Route n ns → contains d ns ≡ true)
  set_at_iff d n m k =
      let (sets, e, u, st) = dominators-Ends in
      (
        λ h ns r. stable_lower sets u st d r (subst (λ o. contains d (set_at o n) ≡ true) e h),
        λ f. subst (λ o. contains d (set_at o n) ≡ true) (sym e) (u.upper n d m k f),
      )

module _ (ops : List SemanticOperation) (es : List OperationEdge) where
  -- For two known operations of one function, the query says exactly whether every path from an entry of the function
  -- to `operation_id` visits `dominator_id`.
  pub dominates_iff :
      (dominator_id operation_id : String) (dominator operation : SemanticOperation)
      → Dict.get (index_operations [] ops) dominator_id ≡ some dominator
      → Dict.get (index_operations [] ops) operation_id ≡ some operation
      → dominator.scope_id ≡ operation.scope_id
      → (dominates (control_flow_graph ops es) dominator_id operation_id ≡ true) ↔ (
          (ns : List String)
          → Route ops es operation.scope_id operation_id ns
          → contains dominator_id ns ≡ true)
  unfolding dominates
  dominates_iff d n a o ha ho e =
      let iff =
        set_at_iff ops es o.scope_id d n (scope_in ops es o.scope_id n o ho refl)
          (scope_in ops es o.scope_id d a ha e) in
      (λ h. iff.0 (sym runs ∙ h), λ f. runs ∙ iff.1 f)
    where
      runs :
          dominates (control_flow_graph ops es) d n
          ≡ contains d (set_at (dominators (control_flow_graph ops es) o.scope_id) n)
      runs = ground (
        arith,
        ap (λ x. Dict.get x n) (operations_lem ops es) ∙ ho,
        ap (λ x. Dict.get x d) (operations_lem ops es) ∙ ha,
        string_eq.same_iff o.scope_id a.scope_id,
      )
