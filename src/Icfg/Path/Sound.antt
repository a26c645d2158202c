-- ===== src/Icfg/Path/Sound.antt =====
-- A path that the query returns is one along the graph's arcs with matched calls and returns.
use smart_bench.Prelude.{
  ℕ, zero, suc, ◌+◌, ◌≤◌, ◌<◌, String, ◌≡◌, ◌≢◌, inl, inr, refl, Bool, true, false, not, ◌&&◌,
  Option, none, some, List, [], ◌∷◌, ◌++◌, ◌==◌, string_eq, option_eq, list_eq, pair_eq, contains,
  length, arith, Bool-cases, beq→eq, sym, ap, subst, leb, if◌then◌else◌,
}
use smart_bench.Prelude.Dict
use smart_bench.Icfg.Graph.{
  Icfg, IcfgArc, IcfgPath, IcfgArcKind, CallFrame, frame_eq, icfg_arc_eq, control_flow,
  embedded_call, call_enter, call_return, function_entry, successors, continuations, current_scope,
}
use smart_bench.Icfg.Path.Loop.{
  CallStack, Entry, also, enter_stack, return_stack, next_stack, Expansion, hit, pushed, advance,
  expand, Outcome, found, path_loop, PathResult, path, path_of, result_of, source_entry, find_path,
  unproven, out_of_fuel, no_path, value_error, fuel_ran_out,
}

module _ (g : Icfg) (max_call_depth : ℕ) where
  -- How an arc may change the call stack: a call is entered only below the depth and into a resolved
  -- target; a return leaves the function that the top frame entered, to a continuation of its call.
  pub data Step (current : String) (stack : CallStack) (arc : IcfgArc) (after : CallStack)
      : Type 0 where
    along :
        arc.kind ≢ call_enter
        → arc.kind ≢ call_return
        → after ≡ stack
        → Step current stack arc after
    enter :
        arc.kind ≡ call_enter
        → length stack < max_call_depth
        → contains arc.target_id (Dict.get_or g.call_targets arc.call_id []) ≡ true
        → after
          ≡ record {
            call_id = arc.call_id;
            callee_scope = arc.target_id;
            continuations = continuations g arc.call_id;
          }
            ∷ stack
        → Step current stack arc after
    leave :
        (frame : CallFrame)
        → arc.kind ≡ call_return
        → stack ≡ frame ∷ after
        → arc.call_id ≡ frame.call_id
        → current_scope g.operations current ≡ some frame.callee_scope
        → contains arc.target_id frame.continuations ≡ true
        → Step current stack arc after

  -- Paths from a source, with their stacks.
  pub data Run (source : String) : Entry → Type 0 where
    begin : Run source (source_entry source)
    follow :
        {e : Entry} (arc : IcfgArc) (after : CallStack)
        → Run source e
        → contains arc (successors g e.current) ≡ true
        → Step e.current e.stack arc after
        → Run source (advance e arc after)

  enter_Step :
      (current : String) (stack after : CallStack) (arc : IcfgArc)
      → arc.kind ≡ call_enter
      → enter_stack g max_call_depth stack arc ≡ some after
      → Step current stack arc after
  unfolding enter_stack
  enter_Step current stack after arc k h = enter k (ground arith) (ground arith) (ground arith)

  return_Step :
      (current : String) (stack after : CallStack) (arc : IcfgArc)
      → arc.kind ≡ call_return
      → return_stack g current stack arc ≡ some after
      → Step current stack arc after
  unfolding return_stack
  return_Step current [] after arc k h = absurd (cc)
  return_Step current (frame ∷ stack) after arc k h =
      leave frame k (ground arith) (ground (arith, string_eq.same_iff arc.call_id frame.call_id))
        (ground (
          arith,
          (option_eq {A = String}).same_iff (some frame.callee_scope)
              (current_scope g.operations current),
        ))
        (ground arith)

  next_Step :
      (current : String) (stack after : CallStack) (arc : IcfgArc)
      → next_stack g max_call_depth current stack arc ≡ some after
      → Step current stack arc after
  unfolding next_stack
  next_Step current stack after arc h = by_kind arc.kind refl
    where
      by_kind : (k : IcfgArcKind) → arc.kind ≡ k → Step current stack arc after
      by_kind call_enter e = enter_Step current stack after arc e (ground arith)
      by_kind call_return e = return_Step current stack after arc e (ground arith)
      by_kind control_flow e = along (ground arith) (ground arith) (ground arith)
      by_kind embedded_call e = along (ground arith) (ground arith) (ground arith)
      by_kind function_entry e = along (ground arith) (ground arith) (ground arith)

  -- The stack never grows past the bound.
  Run-depth : {source : String} {e : Entry} → Run source e → length e.stack ≤ max_call_depth
  Run-depth begin = omega arith
  Run-depth (follow arc after r m (along k l q)) =
      subst (λ s. length s ≤ max_call_depth) (sym q) (Run-depth r)
  Run-depth (follow arc after r m (enter k d t q)) =
      subst (λ s. length s ≤ max_call_depth) (sym q) (omega arith)
  Run-depth (follow {e} arc after r m (leave f k q c s t)) = omega (arith, Run-depth r, ap length q)

  -- One arc for each operation after the first.
  Run-lengths :
      {source : String} {e : Entry} → Run source e → length e.operation_path ≡ length e.arc_path + 1
  Run-lengths begin = omega arith
  Run-lengths (follow arc after r m s) = omega (arith, Run-lengths r)

  module _ (source target : String) where
    abbrev AllRun : List Entry → Type 0
    AllRun [] = Unit
    AllRun (e ∷ es) = Run source e × AllRun es

    allrun-append : (xs ys : List Entry) → AllRun xs → AllRun ys → AllRun (xs ++ ys)
    allrun-append [] ys h k = k
    allrun-append (x ∷ xs) ys h k = (h.0, allrun-append xs ys h.1 k)

    abbrev Expanded : Expansion → Type 0
    Expanded (hit p) = Run source p × (p.current ≡ target)
    Expanded (pushed es) = AllRun es

    also-Expanded : (e : Entry) (x : Expansion) → Run source e → Expanded x → Expanded (also e x)
    also-Expanded e (hit p) r h = h
    also-Expanded e (pushed es) r h = (r, h)

    expand-Run :
        (e : Entry) (arcs : List IcfgArc)
        → Run source e
        → ((arc : IcfgArc)
            → contains arc arcs ≡ true
            → contains arc (successors g e.current) ≡ true)
        → Expanded (expand g max_call_depth target e arcs)
    unfolding expand
    expand-Run e [] r h = tt
    expand-Run e (arc ∷ arcs) r h =
        by_stack (expand-Run e arcs r (λ a m. h a (ground arith)))
          (next_stack g max_call_depth e.current e.stack arc) refl
      where
        by_target :
            Expanded (expand g max_call_depth target e arcs)
            → (after : CallStack) → next_stack g max_call_depth e.current e.stack arc ≡ some after
            → Run source (advance e arc after)
            → Expanded (expand g max_call_depth target e (arc ∷ arcs))
        by_target rest after p now = elim (Bool-cases (arc.target_id == target)) [
          | inl q ↦ rw (expand, p, q) (now, beq→eq arc.target_id target q)
          | inr q ↦
              rw (expand, p, q)
                (also-Expanded (advance e arc after) (expand g max_call_depth target e arcs) now
                  rest)
        ]

        by_stack :
            Expanded (expand g max_call_depth target e arcs)
            → (o : Option CallStack) → next_stack g max_call_depth e.current e.stack arc ≡ o
            → Expanded (expand g max_call_depth target e (arc ∷ arcs))
        by_stack rest none p = rw (expand, p) rest
        by_stack rest (some after) p = by_target rest after p (
            follow arc after r (h arc (ground (arith, icfg_arc_eq.same_iff arc arc)))
              (next_Step e.current e.stack after arc p))

    abbrev Answers : Outcome → Type 0
    Answers (found p) = Run source p × (p.current ≡ target)
    Answers unproven = Unit
    Answers out_of_fuel = Unit

    path_loop-Answers :
        (max_steps fuel steps : ℕ) (visited : List (String × CallStack)) (queue : List Entry)
        → AllRun queue
        → Answers (path_loop g max_call_depth target max_steps fuel steps visited queue)
    unfolding path_loop
    path_loop-Answers m fuel steps visited [] h = tt
    path_loop-Answers m zero steps visited (e ∷ queue) h = elim (Bool-cases (leb m steps)) [
      | inl p ↦ rw (path_loop, p) tt
      | inr p ↦ elim (Bool-cases (contains (e.current, e.stack) visited)) [
        | inl q ↦ rw (path_loop, p, q) (path_loop-Answers m zero steps visited queue h.1)
        | inr q ↦ rw (path_loop, p, q) tt
      ]
    ]
    path_loop-Answers m (suc fuel) steps visited (e ∷ queue) h = elim (Bool-cases (leb m steps)) [
      | inl p ↦ rw (path_loop, p) tt
      | inr p ↦ elim (Bool-cases (contains (e.current, e.stack) visited)) [
        | inl q ↦ rw (path_loop, p, q) (path_loop-Answers m (suc fuel) steps visited queue h.1)
        | inr q ↦
            by_expansion
              (λ es k.
                path_loop-Answers m fuel (steps + length es) ((e.current, e.stack) ∷ visited)
                  (queue ++ es) (allrun-append queue es h.1 k))
              p q (expand g max_call_depth target e (successors g e.current)) refl
              (expand-Run e (successors g e.current) h.0 (λ a k. k))
      ]
    ]
      where
        by_expansion :
            ((es : List Entry)
              → AllRun es
              → Answers (
                  path_loop g max_call_depth target m fuel
                    (steps + length es)
                    ((e.current, e.stack) ∷ visited)
                    (queue ++ es)))
            → leb m steps ≡ false
            → contains (e.current, e.stack) visited ≡ false
            → (x : Expansion) → expand g max_call_depth target e (successors g e.current) ≡ x
            → Expanded (expand g max_call_depth target e (successors g e.current))
            → Answers (path_loop g max_call_depth target m (suc fuel) steps visited (e ∷ queue))
        by_expansion next p q (hit a) x k = rw (path_loop, p, q, x) (subst Expanded x k)
        by_expansion next p q (pushed es) x k =
            rw (path_loop, p, q, x) (next es (subst Expanded x k))

    -- What an answer promises.
    abbrev pub IsAnswer : PathResult → Type 0
    IsAnswer (path p) = (e : Entry) × (p ≡ path_of e) × Run source e × (e.current ≡ target)
    IsAnswer value_error = Unit
    IsAnswer no_path = Unit
    IsAnswer fuel_ran_out = Unit

    result-IsAnswer : (o : Outcome) → Answers o → IsAnswer (result_of o)
    result-IsAnswer (found e) h = (e, refl, h.0, h.1)
    result-IsAnswer unproven h = tt
    result-IsAnswer out_of_fuel h = tt

    pub find_path-IsAnswer :
        (max_steps : ℕ) → IsAnswer (find_path g source target max_call_depth max_steps)
    unfolding find_path
    find_path-IsAnswer m =
        by_bound
          (result-IsAnswer
            (path_loop g max_call_depth target m (m + 1) 0 [] (source_entry source ∷ []))
            (path_loop-Answers m (m + 1) 0 [] (source_entry source ∷ []) (begin, tt)))
          (not (leb max_call_depth 16)) (not (leb 1 m && leb m 100_000))
          (not (Dict.has_key g.operations source && Dict.has_key g.operations target))
      where
        by_bound :
            IsAnswer (
              result_of
                (path_loop g max_call_depth target m (m + 1) 0 [] (source_entry source ∷ [])))
            → (a b c : Bool)
            → IsAnswer (
                if a
                then value_error
                else if b
                then value_error
                else if c
                then no_path
                else if source == target
                then path (path_of (source_entry source))
                else result_of
                    (path_loop g max_call_depth target m (m + 1) 0 [] (source_entry source ∷ [])))
        by_bound h true b c = tt
        by_bound h false true c = tt
        by_bound h false false true = tt
        by_bound h false false false = elim (Bool-cases (source == target)) [
          | inl p ↦ rw (p) (source_entry source, refl, begin, beq→eq source target p)
          | inr p ↦ rw (p) h
        ]

-- A path that the query returns runs along the graph's arcs from the source to the target, calls and
-- returns matched, one arc kind for each operation after the first, and never more frames than the bound.
pub find_path_sound :
    (g : Icfg) (source target : String) (max_call_depth max_steps : ℕ) (p : IcfgPath)
    → find_path g source target max_call_depth max_steps ≡ path p
    → (e : Entry) × (p ≡ path_of e)
      × Run g max_call_depth source e
      × (e.current ≡ target)
      × (length e.operation_path ≡ length e.arc_path + 1)
      × (p.call_depth ≤ max_call_depth)
find_path_sound g source target d m p h =
    let (e, q, r, k) =
      subst (IsAnswer g d source target) h (find_path-IsAnswer g d source target m) in
    (
      e,
      q,
      r,
      k,
      Run-lengths g d r,
      subst (λ n. n ≤ d) (sym (ap (λ x. x.call_depth) q)) (Run-depth g d r),
    )
