-- ===== src/ControlFlow/Between/Without.antt =====
-- The search of `_reachable_without` (smartbench/analysis/control_flow.py).
use smart_bench.Prelude.{
  ℕ, zero, suc, String, ◌≡◌, refl, ◌⊎◌, true, not, Option, none, some, List, [], ◌∷◌, ◌++◌, map,
  string_eq, contains, filter, contains-append, inl, inr, arith, subst, if◌then◌else◌,
}
use smart_bench.Ir.Operations.{OperationEdgeKind, edge_kind_eq}
use smart_bench.Search.{Reaches, here, step, Strategy, IsFair, search}
use smart_bench.ControlFlow.Graph.{ControlFlowGraph, ControlFlowArc, targets, successors}
use smart_bench.ControlFlow.Reach.{found}
use smart_bench.ControlFlow.Between.Loop.{allowed_targets, without_loop}

module _ (g : ControlFlowGraph) (t : String) (forbidden : List OperationEdgeKind) where
  abbrev pub all_next : Strategy String
  all_next = record { next = λ v x. allowed_targets g forbidden x; join = λ q n. q ++ n }

  abbrev pub stop_before : String → Option (Unit {0})
  stop_before x = if contains t (allowed_targets g forbidden x) then some tt else none

  pub all_next-IsFair : IsFair (allowed_targets g forbidden) all_next
  all_next-IsFair = record {
    sound = λ v x y h. h;
    complete = λ v x y h. ground arith;
    joins = λ q n y. contains-append y q n;
  }

  pub without_loop-search :
      (fuel : ℕ) (v q : List String)
      → without_loop g t forbidden fuel v q ≡ found (search all_next stop_before fuel v q)
  unfolding without_loop search
  without_loop-search fuel v [] = refl
  without_loop-search zero v (x ∷ q) = ground (arith, without_loop-search zero v q)
  without_loop-search (suc fuel) v (x ∷ q) = ground (
    arith,
    without_loop-search (suc fuel) v q,
    without_loop-search fuel (x ∷ v) (q ++ allowed_targets g forbidden x),
  )

  -- One more edge at the end of a path.
  pub extend :
      {a b : String}
      → Reaches (allowed_targets g forbidden) a b
      → contains t (allowed_targets g forbidden b) ≡ true
      → Reaches (allowed_targets g forbidden) a t
  extend here h = step h here
  extend (step k r) h = step k (extend r h)

  -- The operation before the end of a path.
  pub last_of :
      {a c : String}
      → Reaches (allowed_targets g forbidden) a c
      → (a ≡ c)
        ⊎ ((b : String) × Reaches (allowed_targets g forbidden) a b
            × (contains c (allowed_targets g forbidden b) ≡ true))
  last_of here = inl refl
  last_of (step {a = a} {b = b} k r) = elim (last_of r) [
    | inl e ↦ inr (a, here, subst (λ z. contains z (allowed_targets g forbidden a) ≡ true) e k)
    | inr (x, q, h) ↦ inr (x, step k q, h)
  ]

  pub allowed_sub :
      (a b : String)
      → contains b (allowed_targets g forbidden a) ≡ true
      → contains b (targets g a) ≡ true
  unfolding allowed_targets targets
  allowed_sub a b h = sub (successors g a) h
    where
      sub :
          (xs : List ControlFlowArc)
          → contains b
              (map (λ arc. arc.target_id) (filter (λ arc. not (contains arc.kind forbidden)) xs))
            ≡ true
          → contains b (map (λ arc. arc.target_id) xs) ≡ true
      sub [] h = h
      sub (x ∷ xs) h = ground (arith, sub xs)
