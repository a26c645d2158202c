-- ===== src/Icfg/Build/Kinds.antt =====
-- What each kind of arc of the graph stands for, and the arcs of each phase of `_build`.
use smart_bench.Prelude.{
  String, ◌≡◌, ◌≢◌, inl, inr, refl, true, false, not, ◌&&◌, ◌||◌, List, [], ◌∷◌, ◌++◌, map, ◌==◌,
  string_eq, pair_eq, contains, sorted, arith, Bool-cases, beq→eq, beq_false→ne, and_left,
  and_right, IsIn, here, there, IsIn-sorted, str_leb,
}
use smart_bench.Prelude.Dict.{Dict}
use smart_bench.Prelude.Dict
use smart_bench.Ir.Operations.{
  SemanticOperation, OperationEdge, OperationKind, operation_order, kind_eq,
}
use smart_bench.Icfg.Graph.{
  Icfg, IcfgArc, icfg_arc_eq, control_flow, embedded_call, call_enter, call_return, function_entry,
  continuations,
}
use smart_bench.Icfg.Build.Traced.{IsControlEdge}
use smart_bench.Icfg.Build.Phases.{
  resolved_hosts, entry_arcs, control_arcs, embedded_arcs, enter_arcs, enter_arcs_of, return_arc,
  return_arcs, return_arcs_of, item_order, all_arcs,
}

-- What each kind of arc stands for, read off the operations and the graph's tables.
pub data Fits (ops : List SemanticOperation) (es : List OperationEdge) (g : Icfg) (a : IcfgArc)
    : Type 0 where
  fits_entry :
      (o : SemanticOperation)
      → a.kind ≡ function_entry
      → IsIn o ops
      → o.kind ≡ OperationKind.function
      → a.source_id ≡ o.id
      → a.target_id ≡ Dict.get_or g.entries a.source_id a.source_id
      → Fits ops es g a
  fits_control :
      a.kind ≡ control_flow
      → contains (a.source_id, a.target_id) g.raw_control_edges ≡ true
      → IsControlEdge g.operations es (a.source_id, a.target_id)
      → contains a.source_id (resolved_hosts g.call_targets g.call_hosts) ≡ false
      → Fits ops es g a
  fits_embedded :
      a.kind ≡ embedded_call
      → a.target_id ≡ a.call_id
      → IsIn (a.call_id, a.source_id) g.call_hosts
      → Dict.has_key g.operations a.source_id ≡ true
      → a.source_id ≢ ""
      → Fits ops es g a
  fits_enter :
      (targets : List String)
      → a.kind ≡ call_enter
      → a.source_id ≡ a.call_id
      → IsIn (a.call_id, targets) g.call_targets
      → IsIn a.target_id targets
      → Dict.has_key g.entries a.target_id ≡ true
      → Fits ops es g a
  fits_return :
      (o : SemanticOperation)
      → a.kind ≡ call_return
      → IsIn (a.source_id, o) g.operations
      → o.kind ≡ OperationKind.return
      → IsIn a.call_id (Dict.keys g.call_targets)
      → contains o.scope_id (Dict.get_or g.call_targets a.call_id []) ≡ true
      → contains a.target_id (continuations g a.call_id) ≡ true
      → Fits ops es g a

module _ (ops : List SemanticOperation) (es : List OperationEdge) (g : Icfg) where
  abbrev pub AllFit : List IcfgArc → Type 0
  AllFit [] = Unit
  AllFit (a ∷ arcs) = Fits ops es g a × AllFit arcs

  fit-append : (xs ys : List IcfgArc) → AllFit xs → AllFit ys → AllFit (xs ++ ys)
  fit-append [] ys h k = k
  fit-append (x ∷ xs) ys h k = (h.0, fit-append xs ys h.1 k)

  entry_fit :
      (os : List SemanticOperation)
      → ((o : SemanticOperation) → IsIn o os → IsIn o ops)
      → AllFit (entry_arcs g os)
  unfolding entry_arcs
  entry_fit [] h = tt
  entry_fit (o ∷ os) h = elim (Bool-cases (o.kind == OperationKind.function)) [
    | inl p ↦ rw (p) (
      fits_entry o refl (h o here) (beq→eq o.kind OperationKind.function p) refl refl,
      entry_fit os (λ q m. h q (there m)),
    )
    | inr p ↦ rw (p) (entry_fit os (λ q m. h q (there m)))
  ]

  abbrev pub IsTraced : Type 0
  IsTraced =
      (p : String × String)
      → contains p g.raw_control_edges ≡ true
      → IsControlEdge g.operations es p

  control_fit :
      IsTraced
      → (raw : List (String × String))
      → ((p : String × String) → contains p raw ≡ true → contains p g.raw_control_edges ≡ true)
      → AllFit (control_arcs (resolved_hosts g.call_targets g.call_hosts) raw)
  unfolding control_arcs
  control_fit traced [] h = tt
  control_fit traced ((s, t) ∷ raw) h =
      elim (Bool-cases (contains s (resolved_hosts g.call_targets g.call_hosts))) [
        | inl p ↦ rw (p) (control_fit traced raw (λ q m. h q (ground arith)))
        | inr p ↦ rw (p) (
          by_member p (h (s, t) (ground (arith, string_eq.same_iff s s, string_eq.same_iff t t))),
          control_fit traced raw (λ q m. h q (ground arith)),
        )
      ]
    where
      by_member :
          contains s (resolved_hosts g.call_targets g.call_hosts) ≡ false
          → contains (s, t) g.raw_control_edges ≡ true
          → Fits ops es g
              (record { source_id = s; target_id = t; kind = control_flow; call_id = "" })
      by_member r m = fits_control refl m (traced (s, t) m) r

  embedded_fit :
      (hosts : Dict String String)
      → ((h : String × String) → IsIn h hosts → IsIn h g.call_hosts)
      → AllFit (embedded_arcs g hosts)
  unfolding embedded_arcs
  embedded_fit [] h = tt
  embedded_fit ((call_id, host_id) ∷ hosts) h =
      elim (Bool-cases (host_id == "" || not (Dict.has_key g.operations host_id))) [
        | inl p ↦ rw (p) (embedded_fit hosts (λ q m. h q (there m)))
        | inr p ↦ rw (p) (
          fits_embedded refl refl (h (call_id, host_id) here) (ground arith)
              (beq_false→ne host_id "" (ground arith)),
          embedded_fit hosts (λ q m. h q (there m)),
        )
      ]

  enter_of_fit :
      (call_id : String) (all_targets : List String)
      → IsIn (call_id, all_targets) g.call_targets
      → (targets : List String) → ((t : String) → IsIn t targets → IsIn t all_targets)
      → AllFit (enter_arcs_of g call_id targets)
  unfolding enter_arcs_of
  enter_of_fit call_id ts k [] h = tt
  enter_of_fit call_id ts k (t ∷ targets) h = elim (Bool-cases (Dict.has_key g.entries t)) [
    | inl p ↦ rw (p) (
      fits_enter ts refl refl k (h t here) p,
      enter_of_fit call_id ts k targets (λ u m. h u (there m)),
    )
    | inr p ↦ rw (p) (enter_of_fit call_id ts k targets (λ u m. h u (there m)))
  ]

  enter_fit :
      (calls : Dict String (List String))
      → ((c : String × List String) → IsIn c calls → IsIn c g.call_targets)
      → AllFit (enter_arcs g calls)
  unfolding enter_arcs
  enter_fit [] h = tt
  enter_fit ((call_id, targets) ∷ calls) h =
      fit-append (enter_arcs_of g call_id targets) (enter_arcs g calls)
        (enter_of_fit call_id targets (h (call_id, targets) here) targets (λ t m. m))
        (enter_fit calls (λ c m. h c (there m)))

  module _ (call_id : String) (is_key : IsIn call_id (Dict.keys g.call_targets)) where
    return_map_fit :
        (return_id : String) (o : SemanticOperation)
        → IsIn (return_id, o) g.operations
        → o.kind ≡ OperationKind.return
        → contains o.scope_id (Dict.get_or g.call_targets call_id []) ≡ true
        → (ts : List String)
        → ((t : String) → contains t ts ≡ true → contains t (continuations g call_id) ≡ true)
        → AllFit (map (return_arc call_id return_id) ts)
    return_map_fit return_id o i k s [] h = tt
    return_map_fit return_id o i k s (t ∷ ts) h = (
      fits_return o refl i k is_key s (h t (ground (arith, string_eq.same_iff t t))),
      return_map_fit return_id o i k s ts (λ u m. h u (ground arith)),
    )

    return_of_fit :
        (os : Dict String SemanticOperation)
        → ((q : String × SemanticOperation) → IsIn q os → IsIn q g.operations)
        → AllFit (return_arcs_of g call_id os)
    unfolding return_arcs_of
    return_of_fit [] h = tt
    return_of_fit ((return_id, o) ∷ os) h =
        elim (Bool-cases (
          o.kind == OperationKind.return
          && contains o.scope_id (Dict.get_or g.call_targets call_id []))) [
            | inl p ↦ rw (p) (
                fit-append (map (return_arc call_id return_id) (continuations g call_id))
                  (return_arcs_of g call_id os)
                  (return_map_fit return_id o (h (return_id, o) here)
                    (beq→eq o.kind OperationKind.return (and_left _ _ p)) (and_right _ _ p)
                    (continuations g call_id) (λ t m. m))
                  (return_of_fit os (λ q m. h q (there m))))
            | inr p ↦ rw (p) (return_of_fit os (λ q m. h q (there m)))
          ]

  return_fit :
      (calls : List String)
      → ((c : String) → IsIn c calls → IsIn c (Dict.keys g.call_targets))
      → AllFit (return_arcs g calls)
  unfolding return_arcs
  return_fit [] h = tt
  return_fit (call_id ∷ calls) h =
      fit-append (return_arcs_of g call_id g.operations) (return_arcs g calls)
        (return_of_fit call_id (h call_id here) g.operations (λ q m. m))
        (return_fit calls (λ c m. h c (there m)))

  pub all_fit : IsTraced → AllFit (all_arcs g (sorted operation_order ops))
  unfolding all_arcs
  all_fit traced =
      fit-append (entry_arcs g (sorted operation_order ops)) _
        (entry_fit (sorted operation_order ops) (λ o m. IsIn-sorted operation_order m))
        (fit-append (control_arcs (resolved_hosts g.call_targets g.call_hosts) g.raw_control_edges)
          _ (control_fit traced g.raw_control_edges (λ p m. m))
          (fit-append (embedded_arcs g (sorted item_order g.call_hosts)) _
            (embedded_fit (sorted item_order g.call_hosts) (λ h m. IsIn-sorted item_order m))
            (fit-append (enter_arcs g (sorted item_order g.call_targets)) _
              (enter_fit (sorted item_order g.call_targets) (λ c m. IsIn-sorted item_order m))
              (return_fit (sorted str_leb (Dict.keys g.call_targets))
                (λ c m. IsIn-sorted str_leb m)))))
