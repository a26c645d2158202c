-- ===== src/StateMachine/Paths.antt =====
-- `InterproceduralStatePathQuery.find` of smartbench/analysis/state_paths.py.
use smart_bench.Prelude.{
  ℕ, ◌≤◌, String, ◌<◌, ◌≡◌, refl, length-append, inl, inr, Bool, true, false, Option, none, some,
  List, [], ◌∷◌, ◌++◌, ◌==◌, string_eq, filter, map, length, leb, sorted, max, arith, Bool-cases,
  if◌then◌else◌,
}
use smart_bench.Prelude.Dict.{Dict}
use smart_bench.Ir.Values.{PyText}
use smart_bench.Ir.Operations.{SemanticOperation, OperationEdge, operation_order}
use smart_bench.ControlFlow.Graph.{index_operations, is_wanted}
use smart_bench.Icfg.Graph.{Icfg, IcfgPath}
use smart_bench.Icfg.Build.{build}
use smart_bench.Icfg.Path.{
  find_path, find_path_total, find_path-IsAnswer, IsAnswer, PathResult, value_error, no_path, path,
  fuel_ran_out,
}
use smart_bench.StateMachine.Selector.{OperationSelector, matches}
use smart_bench.StateMachine.Cross.{along_path, default_max_steps}

pub record InterproceduralStatePath : Type 0 where
  pub event : SemanticOperation
  pub action : SemanticOperation
  pub path : IcfgPath
  pub operations : List SemanticOperation

-- Where the loops have got to: they go on, have returned, or have raised ValueError.
pub data Progress : Type 0 where
  going : List InterproceduralStatePath → Progress
  returned : List InterproceduralStatePath → Progress
  raised : Progress

-- The body of the inner loop.
unfoldable pub find_pair :
    Icfg
    → Dict String SemanticOperation
    → ℕ
    → ℕ
    → SemanticOperation
    → SemanticOperation
    → List InterproceduralStatePath
    → Progress
find_pair g by_id max_call_depth max_paths event action paths =
    if event.scope_id == action.scope_id
    then going paths
    else elim (find_path g event.id action.id max_call_depth default_max_steps) [
      | value_error ↦ raised
      | fuel_ran_out ↦ raised
      | no_path ↦ going paths
      | path p ↦
          let found =
            paths
            ++ record {
              event = event;
              action = action;
              path = p;
              operations = along_path by_id p.operation_ids;
            }
              ∷ [] in
          if leb max_paths (length found) then returned found else going found
    ]

-- A loop whose body may return or raise.
unfoldable pub each :
    {A : Type 0} → (A → List InterproceduralStatePath → Progress) → List A → Progress → Progress
each f [] s = s
each f (x ∷ xs) (going paths) = each f xs (f x paths)
each f (x ∷ xs) (returned paths) = returned paths
each f (x ∷ xs) raised = raised

abbrev pub answer : Progress → Option (List InterproceduralStatePath)
answer (going paths) = some paths
answer (returned paths) = some paths
answer raised = none

-- none where it raises ValueError; `max_paths` is a natural number here.
unfoldable pub find :
    PyText
    → List SemanticOperation
    → List OperationEdge
    → OperationSelector
    → OperationSelector
    → List String
    → ℕ
    → ℕ
    → Option (List InterproceduralStatePath)
unfolding find_pair each
find py ops es event action languages max_call_depth max_paths =
    let operations = filter (λ o. is_wanted (py.lower o.language) (map py.lower languages)) ops in
    let events = sorted operation_order (filter (matches py event) operations) in
    let actions = sorted operation_order (filter (matches py action) operations) in
    let g = build py false ops es in
    let by_id = index_operations [] operations in
    answer (
      each (λ e paths. each (find_pair g by_id max_call_depth max_paths e) actions (going paths))
        events (going []))

module _ (g : Icfg) (depth : ℕ) where
  -- What is true of each path of the answer.
  abbrev pub IsProven : InterproceduralStatePath → Type 0
  IsProven s =
      (s.event.scope_id == s.action.scope_id ≡ false)
      × IsAnswer g depth s.event.id s.action.id (path s.path)

  abbrev pub AllProven : List InterproceduralStatePath → Type 0
  AllProven [] = Unit
  AllProven (s ∷ ss) = IsProven s × AllProven ss

  proven-append :
      (xs ys : List InterproceduralStatePath) → AllProven xs → AllProven ys → AllProven (xs ++ ys)
  proven-append [] ys h k = k
  proven-append (x ∷ xs) ys h k = (h.0, proven-append xs ys h.1 k)

module _ (g : Icfg) (by_id : Dict String SemanticOperation) (depth max_paths : ℕ) where
  abbrev IsKept : Progress → Type 0
  IsKept (going paths) = (length paths < max max_paths 1) × AllProven g depth paths
  IsKept (returned paths) = (length paths ≤ max max_paths 1) × AllProven g depth paths
  IsKept raised = ¬ (depth ≤ 16)

  find_pair-IsKept :
      (event action : SemanticOperation) (paths : List InterproceduralStatePath)
      → IsKept (going paths)
      → IsKept (find_pair g by_id depth max_paths event action paths)
  unfolding find_pair
  find_pair-IsKept event action paths h = elim (Bool-cases (event.scope_id == action.scope_id)) [
    | inl e ↦ rw (e) h
    | inr e ↦
        by_result e (find_path g event.id action.id depth default_max_steps) refl
          (find_path-IsAnswer g depth event.id action.id default_max_steps)
  ]
    where
      appended : IcfgPath → List InterproceduralStatePath
      appended p =
          paths
          ++ record {
            event = event;
            action = action;
            path = p;
            operations = along_path by_id p.operation_ids;
          }
            ∷ []

      by_length :
          (p : IcfgPath)
          → event.scope_id == action.scope_id ≡ false
          → IsAnswer g depth event.id action.id (path p)
          → (b : Bool) → leb max_paths (length (appended p)) ≡ b
          → IsKept (if b then returned (appended p) else going (appended p))
      by_length p e a true k = (
        ground (
          arith,
          length-append paths (
              record {
                event = event;
                action = action;
                path = p;
                operations = along_path by_id p.operation_ids;
              }
              ∷ []),
        ),
        proven-append g depth paths _ h.1 ((e, a), tt),
      )
      by_length p e a false k = (
        ground (
          arith,
          length-append paths (
              record {
                event = event;
                action = action;
                path = p;
                operations = along_path by_id p.operation_ids;
              }
              ∷ []),
        ),
        proven-append g depth paths _ h.1 ((e, a), tt),
      )

      by_result :
          event.scope_id == action.scope_id ≡ false
          → (r : PathResult) → find_path g event.id action.id depth default_max_steps ≡ r
          → IsAnswer g depth event.id action.id r
          → IsKept (find_pair g by_id depth max_paths event action paths)
      by_result e value_error q a =
          rw (e, q)
            (λ k. absurd (
              ground (arith, (find_path_total g event.id action.id depth default_max_steps).1.0 q)))
      by_result e no_path q a = rw (e, q) h
      by_result e fuel_ran_out q a =
          absurd ((find_path_total g event.id action.id depth default_max_steps).0 q)
      by_result e (path p) q a =
          rw (e, q) (by_length p e a (leb max_paths (length (appended p))) refl)

  each-IsKept :
      {A : Type 0} (f : A → List InterproceduralStatePath → Progress)
      → ((a : A) (paths : List InterproceduralStatePath)
          → IsKept (going paths)
          → IsKept (f a paths))
      → (xs : List A) (s : Progress) → IsKept s
      → IsKept (each f xs s)
  unfolding each
  each-IsKept f k [] s h = h
  each-IsKept f k (x ∷ xs) (going paths) h = each-IsKept f k xs (f x paths) (k x paths h)
  each-IsKept f k (x ∷ xs) (returned paths) h = h
  each-IsKept f k (x ∷ xs) raised h = h

abbrev IsResult : Icfg → ℕ → ℕ → Option (List InterproceduralStatePath) → Type 0
IsResult g depth max_paths none = ¬ (depth ≤ 16)
IsResult g depth max_paths (some paths) = (length paths ≤ max max_paths 1) × AllProven g depth paths

kept_answer :
    (g : Icfg) (by_id : Dict String SemanticOperation) (depth max_paths : ℕ) (s : Progress)
    → IsKept g by_id depth max_paths s
    → IsResult g depth max_paths (answer s)
kept_answer g by_id depth max_paths (going paths) h = (ground (arith, h.0), h.1)
kept_answer g by_id depth max_paths (returned paths) h = h
kept_answer g by_id depth max_paths raised h = h

find-IsResult :
    (py : PyText) (ops : List SemanticOperation) (es : List OperationEdge)
    (event action : OperationSelector) (languages : List String) (depth max_paths : ℕ)
    → IsResult
        (build py false ops es)
        depth
        max_paths
        (find py ops es event action languages depth max_paths)
unfolding find
find-IsResult py ops es event action languages depth max_paths =
    kept_answer g by_id depth max_paths
      (each (λ e paths. each (find_pair g by_id depth max_paths e) (chosen action) (going paths))
        (chosen event) (going []))
      (each-IsKept g by_id depth max_paths
        (λ e paths. each (find_pair g by_id depth max_paths e) (chosen action) (going paths))
        (λ e paths h.
          each-IsKept g by_id depth max_paths (find_pair g by_id depth max_paths e)
            (find_pair-IsKept g by_id depth max_paths e) (chosen action) (going paths) h)
        (chosen event) (going []) (ground arith, tt))
  where
    chosen : OperationSelector → List SemanticOperation
    chosen s = sorted operation_order (
        filter (matches py s)
          (filter (λ o. is_wanted (py.lower o.language) (map py.lower languages)) ops))

    g : Icfg
    g = build py false ops es

    by_id : Dict String SemanticOperation
    by_id =
        index_operations []
          (filter (λ o. is_wanted (py.lower o.language) (map py.lower languages)) ops)

-- For a depth within the bound the query answers. The answer holds at most `max_paths` paths, or one
-- where that is zero; each crosses functions and is a path of the graph from its event to its action.
pub find_answers :
    (py : PyText) (ops : List SemanticOperation) (es : List OperationEdge)
    (event action : OperationSelector) (languages : List String) (depth max_paths : ℕ)
    → depth ≤ 16
    → (paths : List InterproceduralStatePath) × (find py ops es event action languages depth
          max_paths
        ≡ some paths)
      × (length paths ≤ max max_paths 1)
      × AllProven (build py false ops es) depth paths
find_answers py ops es event action languages depth max_paths h =
    by_answer (find py ops es event action languages depth max_paths) refl
      (find-IsResult py ops es event action languages depth max_paths)
  where
    by_answer :
        (o : Option (List InterproceduralStatePath))
        → find py ops es event action languages depth max_paths ≡ o
        → IsResult (build py false ops es) depth max_paths o
        → (paths : List InterproceduralStatePath) × (find py ops es event action languages depth
              max_paths
            ≡ some paths)
          × (length paths ≤ max max_paths 1)
          × AllProven (build py false ops es) depth paths
    by_answer none e k = absurd (k h)
    by_answer (some paths) e k = (paths, e, k.0, k.1)
