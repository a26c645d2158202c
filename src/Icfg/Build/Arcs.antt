-- ===== src/Icfg/Build/Arcs.antt =====
-- What an arc of the graph that `_build` leaves means.
use smart_bench.Prelude.{
  String, ◌≡◌, ◌⊎◌, inl, inr, refl, Bool, true, false, Option, none, some, List, [], ◌∷◌, ◌++◌,
  ◌==◌, string_eq, pair_eq, contains, contains-append, contains-sorted, sorted, arith, beq→eq, sym,
  ◌∙◌, subst, if◌then◌else◌,
}
use smart_bench.Prelude.Dict.{Dict}
use smart_bench.Prelude.Dict
use mathlib.Core.Option
use smart_bench.Ir.Values.{PyText}
use smart_bench.Ir.Operations.{SemanticOperation, OperationEdge, operation_order, kind_eq}
use smart_bench.Icfg.Graph.{Icfg, IcfgArc, icfg_arc_eq, continuations, host_of, successors}
use smart_bench.Icfg.Build.Phases.{add_arcs, icfg_arc_order, all_arcs, linked_graph, build}
use smart_bench.Icfg.Build.Traced.{linked_traced}
use smart_bench.Icfg.Build.Kinds.{
  Fits, fits_entry, fits_control, fits_embedded, fits_enter, fits_return, AllFit, all_fit,
}

module _ (ops : List SemanticOperation) (es : List OperationEdge) (g : Icfg) where
  abbrev Filed : Dict String (List IcfgArc) → Type 0
  Filed d =
      (id : String) (a : IcfgArc)
      → contains a (Dict.get_or d id []) ≡ true
      → (a.source_id ≡ id) × Fits ops es g a

  add-Filed :
      (d : Dict String (List IcfgArc)) (arcs : List IcfgArc)
      → Filed d
      → AllFit ops es g arcs
      → Filed (add_arcs d arcs)
  unfolding add_arcs
  add-Filed d [] h k = h
  add-Filed d (b ∷ arcs) h k =
      add-Filed (Dict.insert d b.source_id (Dict.get_or d b.source_id [] ++ b ∷ [])) arcs
        (λ id a m. by_key id a m) k.1
    where
      by_key :
          (id : String) (a : IcfgArc)
          → contains a (
              Dict.get_or
                (Dict.insert d b.source_id (Dict.get_or d b.source_id [] ++ b ∷ []))
                id
                [])
            ≡ true
          → (a.source_id ≡ id) × Fits ops es g a
      by_key id a m = by_test (b.source_id == id) refl (
          subst (λ bs. contains a bs ≡ true)
            (Dict.get_or-insert d b.source_id id (Dict.get_or d b.source_id [] ++ b ∷ []) []) m)
        where
          by_arc :
              b.source_id ≡ id
              → (contains a (Dict.get_or d b.source_id []) ≡ true) ⊎ (a ≡ b)
              → (a.source_id ≡ id) × Fits ops es g a
          by_arc q (inl n) = subst (λ i. (a.source_id ≡ i) × Fits ops es g a) q (h b.source_id a n)
          by_arc q (inr n) = subst (λ c. (c.source_id ≡ id) × Fits ops es g c) (sym n) (q, k.0)

          by_test :
              (t : Bool)
              → b.source_id == id ≡ t
              → contains a
                  (if t then Dict.get_or d b.source_id [] ++ b ∷ [] else Dict.get_or d id [])
                ≡ true
              → (a.source_id ≡ id) × Fits ops es g a
          by_test true p n = by_arc (beq→eq b.source_id id p) (
              ground (
                arith,
                contains-append a (Dict.get_or d b.source_id []) (b ∷ []),
                icfg_arc_eq.same_iff a b,
              ))
          by_test false p n = h id a n

contains-get_or-sort :
    (d : Dict String (List IcfgArc)) (id : String) (a : IcfgArc)
    → contains a (Dict.get_or (Dict.map_values (sorted icfg_arc_order) d) id [])
      ≡ contains a (Dict.get_or d id [])
unfolding Dict.get_or
contains-get_or-sort d id a =
    rw (Dict.get-map_values (sorted icfg_arc_order) d id) (by_value (Dict.get d id))
  where
    by_value :
        (o : Option (List IcfgArc))
        → contains a (Dict.or_default (Option.map (sorted icfg_arc_order) o) [])
          ≡ contains a (Dict.or_default o [])
    by_value none = refl
    by_value (some arcs) = contains-sorted icfg_arc_order a arcs

none-Filed : (ops : List SemanticOperation) (es : List OperationEdge) (g : Icfg) → Filed ops es g []
unfolding Dict.get_or Dict.get
none-Filed ops es g id a n = absurd (cc)

-- The arcs are added after everything that they are read off.
build_fit :
    (py : PyText) (include_async : Bool) (ops : List SemanticOperation) (es : List OperationEdge)
    (a : IcfgArc)
    → Fits ops es (linked_graph py include_async ops es) a
    → Fits ops es (build py include_async ops es) a
unfolding build continuations host_of
build_fit py include_async ops es a (fits_entry o k i f s h) = fits_entry o k i f s h
build_fit py include_async ops es a (fits_control k h t r) = fits_control k h t r
build_fit py include_async ops es a (fits_embedded k h m o n) = fits_embedded k h m o n
build_fit py include_async ops es a (fits_enter ts k h m i o) = fits_enter ts k h m i o
build_fit py include_async ops es a (fits_return o k i r c s h) = fits_return o k i r c s h

-- Every arc of the built graph is filed under its source and means what its kind says. An entry arc goes from a
-- function of the program to its entry; a control-flow arc joins the operations of an edge of a control-flow kind inside
-- one function, and its source hosts no resolved call; an embedded call goes from a known operation that the table of hosts names for the call to the call; a
-- call enters one of its targets that has an entry; and a return goes from a return operation in the scope of a
-- target of its call to a continuation of the call.
pub build-Fits :
    (py : PyText) (include_async : Bool) (ops : List SemanticOperation) (es : List OperationEdge)
    (id : String) (a : IcfgArc)
    → contains a (successors (build py include_async ops es) id) ≡ true
    → (a.source_id ≡ id) × Fits ops es (build py include_async ops es) a
unfolding build successors
build-Fits py include_async ops es id a m =
    let g = linked_graph py include_async ops es in
    let (p, f) =
      add-Filed ops es g [] (all_arcs g (sorted operation_order ops)) (none-Filed ops es g)
        (all_fit ops es g (λ p n. linked_traced py include_async ops es p n)) id a
        (sym (contains-get_or-sort (add_arcs [] (all_arcs g (sorted operation_order ops))) id a)
          ∙ m) in
    (p, build_fit py include_async ops es a f)
