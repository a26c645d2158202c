-- ===== src/ControlFlow/Dominators/Loop.antt =====
-- The iteration over the sets of dominators of one function.
use smart_bench.Prelude.{
  ℕ, zero, suc, ◌+◌, ◌*◌, String, Bool, true, false, not, ◌&&◌, Option, none, some, List, [], ◌∷◌,
  map, ◌==◌, string_eq, contains, filter, any, all, length, if◌then◌else◌, sorted, str_leb,
}
use smart_bench.Prelude.Dict.{Dict}
use smart_bench.Prelude.Dict
use smart_bench.Ir.Operations.{SemanticOperation}
use smart_bench.ControlFlow.Graph.{ControlFlowGraph, sources, same_scope}

abbrev pub DominatorSets : Type 0
DominatorSets = Dict String (List String)

-- The operations of one function.
unfoldable pub scope_nodes : ControlFlowGraph → String → List String
scope_nodes g scope = map (λ o. o.id) (filter (λ o. o.scope_id == scope) (Dict.values g.operations))

-- The smaller of two texts, and `min(nodes)`.
abbrev pub least : String → List String → String
least m [] = m
least m (n ∷ ns) = least (if str_leb m n then m else n) ns

-- The operations without a predecessor, or else the first by name.
unfoldable pub entries_of : ControlFlowGraph → List String → List String
entries_of g nodes = elim (filter (λ n. not (any (λ s. contains s nodes) (sources g n))) nodes) [
  | e ∷ es ↦ e ∷ es
  | [] ↦ elim nodes [ [] ↦ [] | n ∷ ns ↦ least n ns ∷ [] ]
]

-- `{node: ({node} if node in entries else set(nodes)) for node in nodes}`
unfoldable pub initial_sets :
    List String → List String → List String → DominatorSets → DominatorSets
initial_sets nodes entries [] d = d
initial_sets nodes entries (n ∷ ns) d =
    initial_sets nodes entries ns (Dict.insert d n (if contains n entries then n ∷ [] else nodes))

-- `{node, *common}`, or `{node}` where there is no predecessor.
unfoldable pub updated : DominatorSets → String → List String → List String
updated d n [] = n ∷ []
updated d n (p ∷ ps) =
    n ∷ filter (λ x. all (λ q. contains x (Dict.get_or d q [])) ps) (Dict.get_or d p [])

-- Equality of sets given as lists.
unfoldable pub same_set : List String → List String → Bool
same_set xs ys = all (λ x. contains x ys) xs && all (λ y. contains y xs) ys

module _ (g : ControlFlowGraph) (nodes : List String) where
  unfoldable pub predecessors_in : String → List String
  predecessors_in n = filter (λ s. contains s nodes) (sources g n)

  -- One operation's round: its new set, if it differs, and that something changed.
  unfoldable pub visit : DominatorSets × Bool → String → DominatorSets × Bool
  unfolding updated same_set predecessors_in
  visit (d, changed) n =
      if same_set (updated d n (predecessors_in n)) (Dict.get_or d n [])
      then (d, changed)
      else (Dict.insert d n (updated d n (predecessors_in n)), true)

  unfoldable pub sweep : DominatorSets × Bool → List String → DominatorSets × Bool
  unfolding visit
  sweep st [] = st
  sweep st (n ∷ ns) = sweep (visit st n) ns

  -- `while changed:`, with fuel.
  unfoldable pub iterate : List String → ℕ → DominatorSets → Option DominatorSets
  iterate order zero d = none
  iterate order (suc fuel) d =
      let rest = iterate order fuel (sweep (d, false) order).0 in
      elim (sweep (d, false) order).1 [ true ↦ rest | false ↦ some (sweep (d, false) order).0 ]

-- Every sweep that changes a set makes one smaller, so this much fuel is enough.
unfoldable pub dominators : ControlFlowGraph → String → Option DominatorSets
unfolding scope_nodes entries_of initial_sets iterate sweep
dominators g scope =
    iterate g nodes (sorted str_leb (filter (λ n. not (contains n (entries_of g nodes))) nodes))
      (length nodes * length nodes + 1) (initial_sets nodes (entries_of g nodes) nodes [])
  where
    nodes : List String
    nodes = scope_nodes g scope

abbrev pub set_at : Option DominatorSets → String → List String
set_at none n = []
set_at (some d) n = Dict.get_or d n []

-- The function of an operation that was found.
abbrev pub scope_name : Option SemanticOperation → String
scope_name none = ""
scope_name (some o) = o.scope_id

-- `dominator_id in scope_dominators.get(operation_id, frozenset())`, if both are of one function.
unfoldable pub dominates : ControlFlowGraph → String → String → Bool
dominates g dominator_id operation_id =
    if same_scope (Dict.get g.operations operation_id) (Dict.get g.operations dominator_id)
    then contains dominator_id
        (set_at (dominators g (scope_name (Dict.get g.operations operation_id))) operation_id)
    else false
