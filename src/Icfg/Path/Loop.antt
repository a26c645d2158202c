-- ===== src/Icfg/Path/Loop.antt =====
-- `InterproceduralControlFlowGraph.path` and `reachable`. The call stack has its top at the head.
use smart_bench.Prelude.{
  ℕ, zero, suc, ◌+◌, String, not, ◌&&◌, ◌||◌, Option, none, some, List, [], ◌∷◌, ◌++◌, ◌==◌,
  string_eq, list_eq, pair_eq, option_eq, contains, length, leb, if◌then◌else◌,
}
use mathlib.Core.List.{reverse}
use smart_bench.Prelude.Dict
use smart_bench.Icfg.Graph.{
  Icfg, IcfgArc, IcfgPath, IcfgArcKind, CallFrame, frame_eq, control_flow, embedded_call,
  call_enter, call_return, function_entry, successors, continuations, current_scope,
}

abbrev pub CallStack : Type 0
CallStack = List CallFrame

-- An entry of the queue: the operation, its stack, and the path so far, newest first.
pub record Entry : Type 0 where
  pub current : String
  pub stack : CallStack
  pub operation_path : List String
  pub arc_path : List IcfgArcKind

-- The guards of CALL_ENTER; the new frame.
unfoldable pub enter_stack : Icfg → ℕ → CallStack → IcfgArc → Option CallStack
enter_stack g max_call_depth stack arc =
    if leb max_call_depth (length stack)
    then none
    else if not (contains arc.target_id (Dict.get_or g.call_targets arc.call_id []))
    then none
    else some (
        record {
          call_id = arc.call_id;
          callee_scope = arc.target_id;
          continuations = continuations g arc.call_id;
        }
        ∷ stack)

-- The guards of CALL_RETURN; the stack without its top.
unfoldable pub return_stack : Icfg → String → CallStack → IcfgArc → Option CallStack
return_stack g current [] arc = none
return_stack g current (frame ∷ stack) arc =
    if not (arc.call_id == frame.call_id)
      || (not (some frame.callee_scope == current_scope g.operations current)
          || not (contains arc.target_id frame.continuations))
    then none
    else some stack

-- The stack after an arc, or none where the loop goes on with the next arc.
unfoldable pub next_stack : Icfg → ℕ → String → CallStack → IcfgArc → Option CallStack
unfolding enter_stack return_stack
next_stack g max_call_depth current stack arc = elim arc.kind [
  | call_enter ↦ enter_stack g max_call_depth stack arc
  | call_return ↦ return_stack g current stack arc
  | control_flow ↦ some stack
  | embedded_call ↦ some stack
  | function_entry ↦ some stack
]

-- What the loop over the arcs of one entry comes to.
pub data Expansion : Type 0 where
  hit : Entry → Expansion
  pushed : List Entry → Expansion

abbrev pub also : Entry → Expansion → Expansion
also e (hit p) = hit p
also e (pushed es) = pushed (e ∷ es)

abbrev pub advance : Entry → IcfgArc → CallStack → Entry
advance e arc stack = record {
  current = arc.target_id;
  stack = stack;
  operation_path = arc.target_id ∷ e.operation_path;
  arc_path = arc.kind ∷ e.arc_path;
}

unfoldable pub expand : Icfg → ℕ → String → Entry → List IcfgArc → Expansion
expand g max_call_depth target_id e [] = pushed []
expand g max_call_depth target_id e (arc ∷ arcs) =
    let rest = expand g max_call_depth target_id e arcs in
    elim (next_stack g max_call_depth e.current e.stack arc) [
      | none ↦ rest
      | some stack ↦
          if arc.target_id == target_id
          then hit (advance e arc stack)
          else also (advance e arc stack) rest
    ]

pub data Outcome : Type 0 where
  found : Entry → Outcome
  unproven : Outcome
  out_of_fuel : Outcome

-- `while queue and steps < max_steps:`; a step is an arc followed. The fuel counts expansions.
unfoldable pub path_loop :
    Icfg → ℕ → String → ℕ → ℕ → ℕ → List (String × CallStack) → List Entry → Outcome
path_loop g max_call_depth target_id max_steps fuel steps visited [] = unproven
path_loop g max_call_depth target_id max_steps zero steps visited (e ∷ queue) =
    let rest = path_loop g max_call_depth target_id max_steps zero steps visited queue in
    if leb max_steps steps
    then unproven
    else if contains (e.current, e.stack) visited
    then rest
    else out_of_fuel
path_loop g max_call_depth target_id max_steps (suc fuel) steps visited (e ∷ queue) =
    let rest = path_loop g max_call_depth target_id max_steps (suc fuel) steps visited queue in
    if leb max_steps steps
    then unproven
    else if contains (e.current, e.stack) visited
    then rest
    else (elim (expand g max_call_depth target_id e (successors g e.current)) [
      | hit p ↦ found p
      | pushed es ↦
          path_loop g max_call_depth target_id max_steps fuel (steps + length es)
            ((e.current, e.stack) ∷ visited) (queue ++ es)
    ])

abbrev pub max_call_depth_bound : ℕ
max_call_depth_bound = 16

abbrev pub max_steps_bound : ℕ
max_steps_bound = 100_000

pub data PathResult : Type 0 where
  value_error : PathResult
  no_path : PathResult
  path : IcfgPath → PathResult
  fuel_ran_out : PathResult

-- The path in its order.
abbrev pub path_of : Entry → IcfgPath
path_of e = record {
  operation_ids = reverse e.operation_path;
  arc_kinds = reverse e.arc_path;
  call_depth = length e.stack;
}

abbrev pub result_of : Outcome → PathResult
result_of (found e) = path (path_of e)
result_of unproven = no_path
result_of out_of_fuel = fuel_ran_out

abbrev pub source_entry : String → Entry
source_entry id = record { current = id; stack = []; operation_path = id ∷ []; arc_path = [] }

unfoldable pub find_path : Icfg → String → String → ℕ → ℕ → PathResult
find_path g source_id target_id max_call_depth max_steps =
    if not (leb max_call_depth max_call_depth_bound)
    then value_error
    else if not (leb 1 max_steps && leb max_steps max_steps_bound)
    then value_error
    else if not (Dict.has_key g.operations source_id && Dict.has_key g.operations target_id)
    then no_path
    else if source_id == target_id
    then path (path_of (source_entry source_id))
    else result_of (
        path_loop g max_call_depth target_id max_steps (max_steps + 1) 0 []
          (source_entry source_id ∷ []))
