-- ===== src/Icfg/Graph.antt =====
-- The graph's state: `ICFGArcKind`, `ICFGArc`, `ICFGPath`, `_CallFrame` and the attributes of
-- `InterproceduralControlFlowGraph` in smartbench/analysis/icfg.py.
use smart_bench.Prelude.{
  ℕ, String, ◌≡◌, ◌↔◌, Bool, true, refl, ◌&&◌, Option, none, some, List, [], ◌∷◌, ◌==◌, arith, eqb,
  Eq, nat_eq, string_eq, list_eq, sorted, str_leb, contains, if◌then◌else◌,
}
use smart_bench.Prelude.Dict.{Dict}
use smart_bench.Prelude.Dict
use smart_bench.Ir.Operations.{SemanticOperation}

pub data IcfgArcKind : Type 0 where
  control_flow embedded_call call_enter call_return function_entry : IcfgArcKind

abbrev pub arc_kind_value : IcfgArcKind → String
arc_kind_value control_flow = "control_flow"
arc_kind_value embedded_call = "embedded_call"
arc_kind_value call_enter = "call_enter"
arc_kind_value call_return = "call_return"
arc_kind_value function_entry = "function_entry"

pub record IcfgArc : Type 0 where
  pub source_id : String
  pub target_id : String
  pub kind : IcfgArcKind
  pub call_id : String

abbrev arc_kind_index : IcfgArcKind → ℕ
arc_kind_index control_flow = 0
arc_kind_index embedded_call = 1
arc_kind_index call_enter = 2
arc_kind_index call_return = 3
arc_kind_index function_entry = 4

abbrev arc_beq : IcfgArc → IcfgArc → Bool
arc_beq a b =
    a.source_id == b.source_id
    && (a.target_id == b.target_id
        && (eqb (arc_kind_index a.kind) (arc_kind_index b.kind) && a.call_id == b.call_id))

arc_kind_iff : (a b : IcfgArcKind) → (eqb (arc_kind_index a) (arc_kind_index b) ≡ true) ↔ (a ≡ b)
arc_kind_iff a b = ground arith

pub arc_beq_iff : (a b : IcfgArc) → (arc_beq a b ≡ true) ↔ (a ≡ b)
arc_beq_iff a b = ground (
  arith,
  string_eq.same_iff a.source_id b.source_id,
  string_eq.same_iff a.target_id b.target_id,
  arc_kind_iff a.kind b.kind,
  string_eq.same_iff a.call_id b.call_id,
)

instance abbrev pub icfg_arc_eq : Eq IcfgArc
icfg_arc_eq = record { same = arc_beq; same_iff = arc_beq_iff }

pub record IcfgPath : Type 0 where
  pub operation_ids : List String
  pub arc_kinds : List IcfgArcKind
  pub call_depth : ℕ

pub record CallFrame : Type 0 where
  pub call_id : String
  pub callee_scope : String
  pub continuations : List String

abbrev frame_beq : CallFrame → CallFrame → Bool
frame_beq a b =
    a.call_id == b.call_id
    && (a.callee_scope == b.callee_scope && a.continuations == b.continuations)

pub frame_beq_iff : (a b : CallFrame) → (frame_beq a b ≡ true) ↔ (a ≡ b)
frame_beq_iff a b = ground (
  arith,
  string_eq.same_iff a.call_id b.call_id,
  string_eq.same_iff a.callee_scope b.callee_scope,
  (list_eq {A = String}).same_iff a.continuations b.continuations,
)

instance abbrev pub frame_eq : Eq CallFrame
frame_eq = record { same = frame_beq; same_iff = frame_beq_iff }

-- `_successors`, `_entries`, `_host_continuations`, `_call_targets`, `_call_hosts`,
-- `_raw_control_edges`.
pub record Icfg : Type 0 where
  pub operations : Dict String SemanticOperation
  pub succs : Dict String (List IcfgArc)
  pub entries : Dict String String
  pub host_continuations : Dict String (List String)
  pub call_targets : Dict String (List String)
  pub call_hosts : Dict String String
  pub raw_control_edges : List (String × String)

unfoldable pub successors : Icfg → String → List IcfgArc
successors g id = Dict.get_or g.succs id []

-- `self._call_hosts.get(call_id, "") or call_id`
unfoldable pub host_of : Icfg → String → String
host_of g call_id =
    if Dict.get_or g.call_hosts call_id "" == ""
    then call_id
    else Dict.get_or g.call_hosts call_id ""

-- A sorted list without repetitions, as `tuple(sorted(set(xs)))`.
unfoldable pub distinct : List String → List String
distinct [] = []
distinct (x ∷ xs) = let rest = distinct xs in if contains x rest then rest else x ∷ rest

pub contains-distinct : (x : String) (xs : List String) → contains x (distinct xs) ≡ contains x xs
unfolding distinct
contains-distinct x [] = refl
contains-distinct x (y ∷ xs) =
    ground (arith, contains-distinct x xs, contains-distinct y xs, string_eq.same_iff x y)

unfoldable pub continuations : Icfg → String → List String
unfolding host_of distinct
continuations g call_id =
    sorted str_leb (distinct (Dict.get_or g.host_continuations (host_of g call_id) []))

-- `current_scope(operations, operation_id)`, which the callers ask of known operations.
unfoldable pub current_scope : Dict String SemanticOperation → String → Option String
current_scope ops id = elim (Dict.get ops id) [ none ↦ none | some o ↦ some o.scope_id ]
