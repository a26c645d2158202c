-- ===== src/ControlFlow/Between/Loop.antt =====
-- The queries: a search for a path that avoids an operation, and one that avoids kinds of edges.
use smart_bench.Prelude.{
  ℕ, zero, suc, ◌+◌, String, Bool, true, false, not, ◌&&◌, ◌||◌, Option, none, some, List, [], ◌∷◌,
  ◌++◌, map, ◌==◌, string_eq, contains, filter, any, if◌then◌else◌,
}
use smart_bench.Prelude.Dict
use smart_bench.Ir.Operations.{
  OperationEdgeKind, true_branch, false_branch, loop_back, edge_kind_eq,
}
use smart_bench.ControlFlow.Graph.{ControlFlowGraph, targets, successors, successors_of, same_scope}
use smart_bench.ControlFlow.Reach.{reachable, node_count}

-- Whether a path of the queue reaches the target without the dominator. Marks are tested first.
unfoldable pub avoid_loop :
    ControlFlowGraph → String → String → ℕ → List String → List String → Bool
avoid_loop g dominator_id operation_id fuel visited [] = false
avoid_loop g dominator_id operation_id zero visited (current ∷ queue) =
    let rest = avoid_loop g dominator_id operation_id zero visited queue in
    if current == dominator_id || contains current visited then rest else current == operation_id
avoid_loop g dominator_id operation_id (suc fuel) visited (current ∷ queue) =
    let rest = avoid_loop g dominator_id operation_id (suc fuel) visited queue in
    let marked = current ∷ visited in
    let fresh =
      filter (λ b. not (b == dominator_id) && not (contains b marked)) (targets g current) in
    let deeper = avoid_loop g dominator_id operation_id fuel marked (queue ++ fresh) in
    if current == dominator_id || contains current visited
    then rest
    else if current == operation_id
    then true
    else deeper

unfoldable pub dominates_between : ControlFlowGraph → String → String → String → Bool
unfolding avoid_loop node_count
dominates_between g start_id dominator_id operation_id =
    if not (
      same_scope (Dict.get g.operations start_id) (Dict.get g.operations dominator_id)
      && same_scope (Dict.get g.operations dominator_id) (Dict.get g.operations operation_id))
    then false
    else if start_id == dominator_id
    then true
    else if operation_id == dominator_id
    then reachable g start_id operation_id
    else not (
        avoid_loop g dominator_id operation_id (node_count g) []
          (filter (λ b. not (b == dominator_id)) (targets g start_id)))

-- The ends of the arcs whose kind is not forbidden.
unfoldable pub allowed_targets : ControlFlowGraph → List OperationEdgeKind → String → List String
unfolding successors
allowed_targets g forbidden id =
    map (λ arc. arc.target_id) (filter (λ arc. not (contains arc.kind forbidden)) (successors g id))

-- The target is tested on the arcs that leave an operation; every allowed end is queued.
unfoldable pub without_loop :
    ControlFlowGraph → String → List OperationEdgeKind → ℕ → List String → List String → Bool
unfolding allowed_targets
without_loop g target_id forbidden fuel visited [] = false
without_loop g target_id forbidden zero visited (current ∷ queue) =
    let rest = without_loop g target_id forbidden zero visited queue in
    if contains current visited
    then rest
    else contains target_id (allowed_targets g forbidden current)
without_loop g target_id forbidden (suc fuel) visited (current ∷ queue) =
    let rest = without_loop g target_id forbidden (suc fuel) visited queue in
    let deeper =
      without_loop g target_id forbidden fuel (current ∷ visited)
        (queue ++ allowed_targets g forbidden current) in
    if contains current visited
    then rest
    else if contains target_id (allowed_targets g forbidden current)
    then true
    else deeper

unfoldable pub reachable_without :
    ControlFlowGraph → String → String → List OperationEdgeKind → Bool
unfolding without_loop node_count
reachable_without g source_id target_id forbidden =
    if source_id == target_id
    then true
    else without_loop g target_id forbidden (node_count g + 1) [] (source_id ∷ [])

-- The outcome of one kind of branch: none if no arc has the kind, else whether it reaches the
-- operation without going round a loop.
unfoldable pub outcome : ControlFlowGraph → String → String → OperationEdgeKind → Option Bool
unfolding successors_of reachable_without
outcome g branch_id operation_id kind =
    elim (map (λ arc. arc.target_id) (successors_of g branch_id (kind ∷ []))) [
      | [] ↦ none
      | t ∷ ts ↦ some (
          any (λ x. x == operation_id || reachable_without g x operation_id (loop_back ∷ []))
            (t ∷ ts))
    ]

-- `len(outcomes) == 2 and sum(outcomes) == 1`
abbrev pub exactly_one : Option Bool → Option Bool → Bool
exactly_one none b = false
exactly_one (some a) none = false
exactly_one (some true) (some b) = not b
exactly_one (some false) (some b) = b

unfoldable pub branch_controls : ControlFlowGraph → String → String → Bool
unfolding outcome
branch_controls g branch_id operation_id =
    exactly_one (outcome g branch_id operation_id true_branch)
      (outcome g branch_id operation_id false_branch)
