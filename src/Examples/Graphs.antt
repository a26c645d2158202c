-- ===== src/Examples/Graphs.antt =====
-- Witnesses for the theorems on the two graphs.
use smart_bench.Prelude.{
  ◌≡◌, ◌≢◌, ◌↔◌, refl, String, true, false, List, [], ◌∷◌, map, contains, string_eq, not, ◌&&◌, leb,
  length, sorted, ◌+◌, ◌≤◌,
}
use smart_bench.Prelude.Dict
use smart_bench.ControlFlow.Graph.{control_flow_graph, index_operations}
use smart_bench.ControlFlow.Reach.{reachable, Path⁺, reachable_iff, ask_all, ask_all-map, IsSound}
use smart_bench.ControlFlow.Between.{
  dominates_between, Walk, dominates_between_iff, branch_controls, Controls, branch_controls_iff,
}
use smart_bench.ControlFlow.Dominators.{dominates, Route, dominates_iff}
use smart_bench.Icfg.Graph.{
  Icfg, IcfgPath, control_flow, call_enter, function_entry, successors, continuations, IcfgArc,
  icfg_arc_eq,
}
use smart_bench.Icfg.Build.{build, Fits, build-Fits}
use smart_bench.Icfg.Path.{
  find_path, path_loop, expand, next_stack, fuel_ran_out, value_error, Entry, path_of, Run,
  find_path_total, find_path_sound,
}
use smart_bench.Examples.Data.{
  in_f, edges_f, guard, action, with_call, edges_call, plain_text, apart,
}

abbrev called : Icfg
called = build plain_text false with_call edges_call

reachable_iff_example :
    (reachable (control_flow_graph in_f edges_f) "e" "a" ≡ true) ↔ Path⁺ in_f edges_f "e" "a"
reachable_iff_example = reachable_iff in_f edges_f "e" "a"

dominates_between_iff_example :
    (dominates_between (control_flow_graph in_f edges_f) "e" "g" "a" ≡ true)
    ↔ ((ns : List String) → Walk in_f edges_f "e" "a" ns → contains "g" ("e" ∷ ns) ≡ true)
unfolding index_operations Dict.get Dict.insert
dominates_between_iff_example =
    dominates_between_iff in_f edges_f "e" "g" "a" refl refl (apart "a" "g" refl)

branch_controls_iff_example :
    (branch_controls (control_flow_graph in_f edges_f) "g" "a" ≡ true)
    ↔ Controls in_f edges_f "g" "a"
branch_controls_iff_example = branch_controls_iff in_f edges_f "g" "a"

dominates_iff_example :
    (dominates (control_flow_graph in_f edges_f) "g" "a" ≡ true)
    ↔ ((ns : List String) → Route in_f edges_f "f" "a" ns → contains "g" ns ≡ true)
unfolding index_operations Dict.get Dict.insert
dominates_iff_example = dominates_iff in_f edges_f "g" "a" guard action refl refl refl

empty_IsSound : IsSound (control_flow_graph in_f edges_f) []
unfolding Dict.get
empty_IsSound = record { at = λ key answer h. absurd (cc) }

ask_all-map_example :
    ask_all (control_flow_graph in_f edges_f) [] (("e", "a") ∷ ("e", "a") ∷ [])
    ≡ map
        (λ (key : String × String). reachable (control_flow_graph in_f edges_f) key.0 key.1)
        (("e", "a") ∷ ("e", "a") ∷ [])
ask_all-map_example =
    ask_all-map (control_flow_graph in_f edges_f) [] (("e", "a") ∷ ("e", "a") ∷ []) empty_IsSound

find_path_total_example :
    (find_path called "e" "r" 4 100 ≢ fuel_ran_out)
    × ((find_path called "e" "r" 4 100 ≡ value_error)
        ↔ (not (leb 4 16 && (leb 1 100 && leb 100 100_000)) ≡ true))
find_path_total_example = find_path_total called "e" "r" 4 100

abbrev route : IcfgPath
route = record {
  operation_ids = "e" ∷ "c" ∷ "h" ∷ "r" ∷ [];
  arc_kinds = control_flow ∷ call_enter ∷ function_entry ∷ [];
  call_depth = 1;
}

find_path_sound_example :
    (e : Entry) × (route ≡ path_of e)
    × Run called 4 "e" e
    × (e.current ≡ "r")
    × (length e.operation_path ≡ length e.arc_path + 1)
    × (route.call_depth ≤ 4)
unfolding find_path build successors Dict.has_key Dict.get index_operations Dict.insert Dict.get_or
    path_loop expand sorted continuations next_stack
find_path_sound_example = find_path_sound called "e" "r" 4 100 route refl

abbrev first_arc : IcfgArc
first_arc = record { source_id = "e"; target_id = "c"; kind = control_flow; call_id = "" }

build-Fits_example : (first_arc.source_id ≡ "e") × Fits with_call edges_call called first_arc
unfolding build successors Dict.has_key Dict.get index_operations Dict.insert Dict.get_or sorted
    continuations
build-Fits_example = build-Fits plain_text false with_call edges_call "e" first_arc refl
