-- ===== src/ControlFlow/Reach/Correct.antt =====
-- `reachable` answers exactly whether a non-empty path of control-flow edges exists.
use smart_bench.Prelude.{
  ℕ, zero, suc, String, ◌≡◌, refl, ◌↔◌, Bool, true, false, not, Option, none, some, List, [], ◌∷◌,
  ◌++◌, ◌==◌, string_eq, contains, filter, contains-filter, contains-append, Bool-cases, inl, inr,
  beq_refl, arith, ◌∙◌, sym, subst, length, if◌then◌else◌,
}
use smart_bench.Prelude.Dict
use smart_bench.Ir.Operations.{SemanticOperation, OperationEdge}
use smart_bench.Search.{
  Reaches, here, step, Strategy, IsFair, search, search_sound, search_complete,
}
use smart_bench.ControlFlow.Graph.{
  ControlFlowGraph, control_flow_graph, targets, same_scope, index_operations,
}
use smart_bench.ControlFlow.Linked.{linked, contains-targets, operations_lem, linked_scope}
use smart_bench.ControlFlow.Reach.Loop.{reach_loop, reachable, node_count}

-- The queue grows at its end by the targets that are not visited.
abbrev pub breadth_first : ControlFlowGraph → Strategy String
breadth_first g = record {
  next = λ v x. filter (λ b. not (contains b v)) (targets g x);
  join = λ q n. q ++ n;
}

abbrev pub stop_at : String → String → Option (Unit {0})
stop_at t x = if x == t then some tt else none

abbrev pub found : Option (Unit {0}) → Bool
found none = false
found (some u) = true

pub stops_at : (t y : String) (w : Unit {0}) → stop_at t y ≡ some w → y ≡ t
stops_at t y w h = ground (arith, string_eq.same_iff y t)

pub found-some : (o : Option (Unit {0})) → found o ≡ true → (w : Unit {0}) × (o ≡ some w)
found-some none h = absurd (cc)
found-some (some w) h = (w, refl)

pub unfound_none : (o : Option (Unit {0})) → found o ≡ false → o ≡ none
unfound_none none h = refl
unfound_none (some w) h = absurd (cc)

module _ (g : ControlFlowGraph) (t : String) where
  -- The target is never marked, so it may be tested before the marks are.
  reach_loop-search :
      (fuel : ℕ) (v q : List String)
      → contains t v ≡ false
      → reach_loop g t fuel v q ≡ found (search (breadth_first g) (stop_at t) fuel v q)
  unfolding reach_loop search
  reach_loop-search fuel v [] h = refl
  reach_loop-search zero v (x ∷ q) h =
      ground (arith, reach_loop-search zero v q h, string_eq.same_iff x t)
  reach_loop-search (suc fuel) v (x ∷ q) h = ground (
    arith,
    reach_loop-search (suc fuel) v q h,
    string_eq.same_iff x t,
    string_eq.same_iff t x,
    reach_loop-search fuel (x ∷ v) (q ++ filter (λ b. not (contains b (x ∷ v))) (targets g x)),
  )

scope_trans :
    (x y z : Option SemanticOperation)
    → same_scope x y ≡ true
    → same_scope y z ≡ true
    → same_scope x z ≡ true
scope_trans none y z h k = absurd (cc)
scope_trans (some x) none z h k = absurd (cc)
scope_trans (some x) (some y) none h k = absurd (cc)
scope_trans (some x) (some y) (some z) h k = ground (
  arith,
  string_eq.same_iff x.scope_id y.scope_id,
  string_eq.same_iff y.scope_id z.scope_id,
  string_eq.same_iff x.scope_id z.scope_id,
)

module _ (ops : List SemanticOperation) (es : List OperationEdge) where
  abbrev cfg : ControlFlowGraph
  cfg = control_flow_graph ops es

  breadth_first-IsFair : IsFair (linked ops es) (breadth_first cfg)
  breadth_first-IsFair = record {
    sound = λ v x y h. ground (
      arith,
      contains-filter (λ b. not (contains b v)) y (targets cfg x),
      contains-targets ops es x y,
    );
    complete = λ v x y h. ground (
      arith,
      contains-filter (λ b. not (contains b v)) y (targets cfg x),
      contains-targets ops es x y,
    );
    joins = λ q n y. contains-append y q n;
  }

  -- A path of one or more edges.
  pub Path⁺ : String → String → Type 0
  Path⁺ a c = (b : String) × (contains b (linked ops es a) ≡ true) × Reaches (linked ops es) b c

  pub linked_inside :
      (a b : String)
      → contains b (linked ops es a) ≡ true
      → contains b (Dict.keys (index_operations [] ops)) ≡ true
  linked_inside a b h =
      both (Dict.get (index_operations [] ops) a) (Dict.get (index_operations [] ops) b)
        (linked_scope ops es a b h) (Dict.is_some-get (index_operations [] ops) b)
    where
      both :
          (x y : Option SemanticOperation)
          → same_scope x y ≡ true
          → Dict.is_some y ≡ contains b (Dict.keys (index_operations [] ops))
          → contains b (Dict.keys (index_operations [] ops)) ≡ true
      both x none h k = ground arith
      both x (some y) h k = sym k

  -- Two linked operations belong to one function, and so do the ends of a path.
  same_scope_path :
      {a b : String} (x : String)
      → same_scope (Dict.get (index_operations [] ops) x) (Dict.get (index_operations [] ops) a)
        ≡ true
      → Reaches (linked ops es) a b
      → same_scope (Dict.get (index_operations [] ops) x) (Dict.get (index_operations [] ops) b)
        ≡ true
  same_scope_path x h here = h
  same_scope_path x h (step {a} {b} k r) =
      same_scope_path x
        (scope_trans (Dict.get (index_operations [] ops) x) (Dict.get (index_operations [] ops) a)
          (Dict.get (index_operations [] ops) b) h (linked_scope ops es a b k))
        r

  loop_sound : (s t : String) (n : ℕ) → reach_loop cfg t n [] (targets cfg s) ≡ true → Path⁺ s t
  unfolding Path⁺
  loop_sound s t n h =
      from_found (found-some _ (sym (reach_loop-search cfg t n [] (targets cfg s) refl) ∙ h))
    where
      from_end :
          (x y : String) (w : Unit {0})
          → contains x (targets cfg s) ≡ true
          → Reaches (linked ops es) x y
          → stop_at t y ≡ some w
          → (b : String) × (contains b (linked ops es s) ≡ true) × Reaches (linked ops es) b t
      from_end x y w m r e = (
        x,
        sym (contains-targets ops es s x) ∙ m,
        subst (Reaches (linked ops es) x) (stops_at t y w e) r,
      )

      from_found :
          (w : Unit {0}) × (search (breadth_first cfg) (stop_at t) n [] (targets cfg s) ≡ some w)
          → (b : String) × (contains b (linked ops es s) ≡ true) × Reaches (linked ops es) b t
      from_found (w, e) =
          let (x, y, m, r, k) =
            search_sound (breadth_first cfg) breadth_first-IsFair (stop_at t) n [] (targets cfg s) w
              e in
          from_end x y w m r k

  -- The number of operations is enough fuel.
  loop_complete :
      (s t b : String)
      → contains b (linked ops es s) ≡ true
      → Reaches (linked ops es) b t
      → reach_loop cfg t (node_count cfg) [] (targets cfg s) ≡ true
  unfolding node_count
  loop_complete s t b k r =
      elim (Bool-cases (reach_loop cfg t (length (Dict.keys cfg.operations)) [] (targets cfg s))) [
        | inl hit ↦ hit
        | inr miss ↦ absurd (clash (missed miss))
      ]
    where
      clash : stop_at t t ≡ none → ⊥
      clash h = ground (arith, beq_refl t)

      missed :
          reach_loop cfg t (length (Dict.keys cfg.operations)) [] (targets cfg s) ≡ false
          → stop_at t t ≡ none
      missed h =
          search_complete (breadth_first cfg) breadth_first-IsFair (stop_at t)
            (Dict.keys (index_operations [] ops)) (λ x y _. linked_inside x y) (targets cfg s)
            (length (Dict.keys cfg.operations)) (rw operations_lem (omega arith))
            (λ y m. linked_inside s y (sym (contains-targets ops es s y) ∙ m))
            (unfound_none _ (sym (reach_loop-search cfg t _ [] (targets cfg s) refl) ∙ h)) b t
            (contains-targets ops es s b ∙ k) r

  -- A path of one or more control-flow edges leads from `source_id` to `target_id` exactly if the
  -- query says so.
  pub reachable_iff :
      (source_id target_id : String)
      → (reachable cfg source_id target_id ≡ true) ↔ Path⁺ source_id target_id
  unfolding reachable Path⁺
  reachable_iff s t = (λ h. loop_sound s t (node_count cfg) (ground arith), complete)
    where
      complete : Path⁺ s t → reachable cfg s t ≡ true
      complete (b, k, r) = ground (
        arith,
        loop_complete s t b k r,
        same_scope_path s (linked_scope ops es s b k) r,
        operations_lem ops es,
      )
