-- ===== src/Icfg/Path/Total.antt =====
-- The step bound of the query is reached before the fuel runs out.
use smart_bench.Prelude.{
  ℕ, zero, suc, ◌+◌, ◌-◌, ◌≤◌, String, ◌≡◌, ◌≢◌, ◌↔◌, ◌⊎◌, inl, inr, refl, true, false, not, ◌&&◌,
  List, [], ◌∷◌, ◌++◌, string_eq, list_eq, pair_eq, contains, length, length-append, arith,
  Bool-cases, leb,
}
use smart_bench.Icfg.Graph.{Icfg, frame_eq, successors}
use smart_bench.Icfg.Path.Loop.{
  CallStack, Entry, Expansion, hit, pushed, expand, Outcome, path_loop, result_of, source_entry,
  find_path, out_of_fuel, value_error, fuel_ran_out,
}

-- Every entry that is taken off was pushed by a step, so the entries left to take off are the queue's
-- and at most one for each step left.
pub path_loop_ends :
    (g : Icfg) (d : ℕ) (target : String) (m fuel steps : ℕ) (visited : List (String × CallStack))
    (queue : List Entry)
    → (m ≤ steps) ⊎ (length queue + (m - steps) ≤ fuel)
    → path_loop g d target m fuel steps visited queue ≢ out_of_fuel
unfolding path_loop
path_loop_ends g d t m fuel steps visited [] h = ground arith
path_loop_ends g d t m zero steps visited (e ∷ queue) h = ground (arith)
path_loop_ends g d t m (suc fuel) steps visited (e ∷ queue) h = elim (Bool-cases (leb m steps)) [
  | inl p ↦ rw (path_loop, p) (ground arith)
  | inr p ↦ elim (Bool-cases (contains (e.current, e.stack) visited)) [
    | inl q ↦
        rw (path_loop, p, q) (path_loop_ends g d t m (suc fuel) steps visited queue (ground arith))
    | inr q ↦
        by_expansion p q
          (λ es.
            path_loop_ends g d t m fuel (steps + length es) ((e.current, e.stack) ∷ visited)
              (queue ++ es) (ground (arith, length-append queue es)))
          (expand g d t e (successors g e.current)) refl
  ]
]
  where
    by_expansion :
        leb m steps ≡ false
        → contains (e.current, e.stack) visited ≡ false
        → ((es : List Entry)
            → path_loop g d t m fuel
                (steps + length es)
                ((e.current, e.stack) ∷ visited)
                (queue ++ es)
              ≢ out_of_fuel)
        → (x : Expansion) → expand g d t e (successors g e.current) ≡ x
        → path_loop g d t m (suc fuel) steps visited (e ∷ queue) ≢ out_of_fuel
    by_expansion p q next (hit a) x = rw (path_loop, p, q, x) (ground arith)
    by_expansion p q next (pushed es) x = rw (path_loop, p, q, x) (next es)

result_total : (o : Outcome) → o ≢ out_of_fuel → result_of o ≢ fuel_ran_out
result_total o h = ground arith

-- `path` always answers within its step bound: it raises ValueError exactly where a bound is out of range,
-- and otherwise returns a path or None.
pub find_path_total :
    (g : Icfg) (source target : String) (d m : ℕ)
    → (find_path g source target d m ≢ fuel_ran_out)
      × ((find_path g source target d m ≡ value_error)
          ↔ (not (leb d 16 && (leb 1 m && leb m 100_000)) ≡ true))
unfolding find_path
find_path_total g s t d m = ground (
  arith,
  (result_total (path_loop g d t m (m + 1) 0 [] (source_entry s ∷ []))
      (path_loop_ends g d t m (m + 1) 0 [] (source_entry s ∷ []) (inr (omega arith)))),
)
