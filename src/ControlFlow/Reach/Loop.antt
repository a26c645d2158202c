-- ===== src/ControlFlow/Reach/Loop.antt =====
-- The breadth-first query.
use smart_bench.Prelude.{
  ℕ, zero, suc, String, Bool, true, false, not, List, [], ◌∷◌, ◌++◌, ◌==◌, string_eq, contains,
  filter, length, if◌then◌else◌,
}
use smart_bench.Prelude.Dict
use smart_bench.ControlFlow.Graph.{ControlFlowGraph, targets, same_scope}

-- `while queue:` with `queue.popleft()`. The fuel counts the operations that may still be visited.
unfoldable pub reach_loop : ControlFlowGraph → String → ℕ → List String → List String → Bool
reach_loop g target_id fuel visited [] = false
reach_loop g target_id zero visited (current ∷ queue) =
    let rest = reach_loop g target_id zero visited queue in
    if current == target_id then true else if contains current visited then rest else false
reach_loop g target_id (suc fuel) visited (current ∷ queue) =
    let rest = reach_loop g target_id (suc fuel) visited queue in
    let marked = current ∷ visited in
    let deeper =
      reach_loop g target_id fuel marked
        (queue ++ filter (λ b. not (contains b marked)) (targets g current)) in
    if current == target_id then true else if contains current visited then rest else deeper

unfoldable pub node_count : ControlFlowGraph → ℕ
node_count g = length (Dict.keys g.operations)

-- Operations of different functions, and unknown ones, are not connected.
unfoldable pub reachable : ControlFlowGraph → String → String → Bool
unfolding reach_loop node_count
reachable g source_id target_id =
    if same_scope (Dict.get g.operations source_id) (Dict.get g.operations target_id)
    then reach_loop g target_id (node_count g) [] (targets g source_id)
    else false
