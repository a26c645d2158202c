-- ===== src/Icfg/Build/Phases.antt =====
-- `_build`: the hosts of calls, the pass over the edges, and the arcs in the order they are added.
use smart_bench.Prelude.{
  String, Bool, not, ◌&&◌, ◌||◌, none, some, List, [], ◌∷◌, ◌++◌, ◌==◌, string_eq, pair_eq,
  contains, map, sorted, str_leb, str_compare, then_compare, is_le, if◌then◌else◌,
}
use smart_bench.Prelude.Dict.{Dict}
use smart_bench.Prelude.Dict
use smart_bench.Ir.Values.{PyText, text_or_empty}
use smart_bench.Ir.Operations.{
  SemanticOperation, OperationEdge, OperationKind, OperationEdgeKind, operation_order, kind_eq,
  edge_kind_eq,
}
use smart_bench.ControlFlow.Graph.{control_flow_edge_kinds, index_operations}
use smart_bench.Icfg.Graph.{
  Icfg, IcfgArc, control_flow, embedded_call, call_enter, call_return, function_entry,
  continuations, arc_kind_value,
}

-- `operation.kind in _CALL_KINDS or (include_async and ...)`
unfoldable pub is_call : Bool → SemanticOperation → Bool
is_call include_async o =
    o.kind == OperationKind.call
    || (include_async && (o.kind == OperationKind.spawn || o.kind == OperationKind.defer))

unfoldable pub hosts_of :
    PyText → Bool → Dict String String → List SemanticOperation → Dict String String
hosts_of py include_async d [] = d
hosts_of py include_async d (o ∷ os) =
    hosts_of py include_async
      (if is_call include_async o
        then Dict.insert d o.id (text_or_empty py (Dict.get o.attributes "host_operation"))
        else d)
      os

-- `dict.setdefault`
unfoldable pub set_default : Dict String String → String → String → Dict String String
set_default d k v = if Dict.has_key d k then d else Dict.insert d k v

unfoldable pub add_control_edge :
    Icfg → OperationEdge → SemanticOperation → SemanticOperation → Icfg
add_control_edge g e source target =
    if contains e.kind control_flow_edge_kinds && source.scope_id == target.scope_id
    then record {
      operations = g.operations;
      succs = g.succs;
      entries = g.entries;
      host_continuations =
          Dict.insert g.host_continuations source.id
            (Dict.get_or g.host_continuations source.id [] ++ target.id ∷ []);
      call_targets = g.call_targets;
      call_hosts = g.call_hosts;
      raw_control_edges = g.raw_control_edges ++ (source.id, target.id) ∷ [];
    }
    else g

unfoldable pub add_entry : Icfg → OperationEdge → SemanticOperation → SemanticOperation → Icfg
unfolding set_default
add_entry g e source target =
    if e.kind == OperationEdgeKind.contains
      && (source.kind == OperationKind.function && not (target.kind == OperationKind.parameter))
    then record {
      operations = g.operations;
      succs = g.succs;
      entries = set_default g.entries source.id target.id;
      host_continuations = g.host_continuations;
      call_targets = g.call_targets;
      call_hosts = g.call_hosts;
      raw_control_edges = g.raw_control_edges;
    }
    else g

unfoldable pub add_call_target :
    Bool → Icfg → OperationEdge → SemanticOperation → SemanticOperation → Icfg
unfolding is_call
add_call_target include_async g e call target =
    let current = Dict.get_or g.call_targets call.id [] in
    if e.kind == OperationEdgeKind.calls
      && (is_call include_async call
          && (target.kind == OperationKind.function && not (contains target.id current)))
    then record {
      operations = g.operations;
      succs = g.succs;
      entries = g.entries;
      host_continuations = g.host_continuations;
      call_targets =
          Dict.insert g.call_targets call.id (sorted str_leb (current ++ target.id ∷ []));
      call_hosts = g.call_hosts;
      raw_control_edges = g.raw_control_edges;
    }
    else g

-- The body of `for edge in ir.operation_edges`.
unfoldable pub add_operation_edge : Bool → Icfg → OperationEdge → Icfg
unfolding add_control_edge add_entry add_call_target
add_operation_edge include_async g e = elim (Dict.get g.operations e.source_id) [
  | none ↦ g
  | some source ↦ elim (Dict.get g.operations e.target_id) [
    | none ↦ g
    | some target ↦
        add_call_target include_async
          (add_entry (add_control_edge g e source target) e source target) e source target
  ]
]

unfoldable pub add_operation_edges : Bool → Icfg → List OperationEdge → Icfg
unfolding add_operation_edge
add_operation_edges include_async g [] = g
add_operation_edges include_async g (e ∷ es) =
    add_operation_edges include_async (add_operation_edge include_async g e) es

-- `self._entries.setdefault(operation.id, operation.id)` for every function.
unfoldable pub default_entries : Dict String String → List SemanticOperation → Dict String String
unfolding set_default
default_entries d [] = d
default_entries d (o ∷ os) =
    default_entries (if o.kind == OperationKind.function then set_default d o.id o.id else d) os

-- The graph before its arcs.
unfoldable pub linked_graph : PyText → Bool → List SemanticOperation → List OperationEdge → Icfg
unfolding add_operation_edges default_entries hosts_of
linked_graph py include_async ops es =
    let ordered = sorted operation_order ops in
    let g =
      add_operation_edges include_async
        (record {
          operations = index_operations [] ops;
          succs = [];
          entries = [];
          host_continuations = [];
          call_targets = [];
          call_hosts = hosts_of py include_async [] ordered;
          raw_control_edges = [];
        })
        es in
    record {
      operations = g.operations;
      succs = g.succs;
      entries = default_entries g.entries ordered;
      host_continuations = g.host_continuations;
      call_targets = g.call_targets;
      call_hosts = g.call_hosts;
      raw_control_edges = g.raw_control_edges;
    }

-- `resolved_hosts`
unfoldable pub resolved_hosts : Dict String (List String) → Dict String String → List String
resolved_hosts targets [] = []
resolved_hosts targets ((call_id, host_id) ∷ hosts) =
    let rest = resolved_hosts targets hosts in
    if not (host_id == "") && Dict.has_key targets call_id then host_id ∷ rest else rest

unfoldable pub entry_arcs : Icfg → List SemanticOperation → List IcfgArc
entry_arcs g [] = []
entry_arcs g (o ∷ os) =
    let rest = entry_arcs g os in
    if o.kind == OperationKind.function
    then record {
      source_id = o.id;
      target_id = Dict.get_or g.entries o.id o.id;
      kind = function_entry;
      call_id = "";
    }
      ∷ rest
    else rest

unfoldable pub control_arcs : List String → List (String × String) → List IcfgArc
control_arcs resolved [] = []
control_arcs resolved ((source_id, target_id) ∷ raw) =
    let rest = control_arcs resolved raw in
    if contains source_id resolved
    then rest
    else record { source_id = source_id; target_id = target_id; kind = control_flow; call_id = "" }
      ∷ rest

unfoldable pub embedded_arcs : Icfg → Dict String String → List IcfgArc
embedded_arcs g [] = []
embedded_arcs g ((call_id, host_id) ∷ hosts) =
    let rest = embedded_arcs g hosts in
    if host_id == "" || not (Dict.has_key g.operations host_id)
    then rest
    else record {
      source_id = host_id;
      target_id = call_id;
      kind = embedded_call;
      call_id = call_id;
    }
      ∷ rest

unfoldable pub enter_arcs_of : Icfg → String → List String → List IcfgArc
enter_arcs_of g call_id [] = []
enter_arcs_of g call_id (target_id ∷ targets) =
    let rest = enter_arcs_of g call_id targets in
    if Dict.has_key g.entries target_id
    then record { source_id = call_id; target_id = target_id; kind = call_enter; call_id = call_id }
      ∷ rest
    else rest

unfoldable pub enter_arcs : Icfg → Dict String (List String) → List IcfgArc
unfolding enter_arcs_of
enter_arcs g [] = []
enter_arcs g ((call_id, targets) ∷ calls) = enter_arcs_of g call_id targets ++ enter_arcs g calls

abbrev pub return_arc : String → String → String → IcfgArc
return_arc call_id return_id continuation = record {
  source_id = return_id;
  target_id = continuation;
  kind = call_return;
  call_id = call_id;
}

-- The loop over `self.operations.items()` for one call.
unfoldable pub return_arcs_of : Icfg → String → Dict String SemanticOperation → List IcfgArc
return_arcs_of g call_id [] = []
return_arcs_of g call_id ((return_id, o) ∷ ops) =
    let rest = return_arcs_of g call_id ops in
    if o.kind == OperationKind.return && contains o.scope_id (Dict.get_or g.call_targets call_id [])
    then map (return_arc call_id return_id) (continuations g call_id) ++ rest
    else rest

unfoldable pub return_arcs : Icfg → List String → List IcfgArc
unfolding return_arcs_of
return_arcs g [] = []
return_arcs g (call_id ∷ calls) = return_arcs_of g call_id g.operations ++ return_arcs g calls

-- `self._successors[source].append(arc)` for each arc.
unfoldable pub add_arcs : Dict String (List IcfgArc) → List IcfgArc → Dict String (List IcfgArc)
add_arcs d [] = d
add_arcs d (a ∷ arcs) =
    add_arcs (Dict.insert d a.source_id (Dict.get_or d a.source_id [] ++ a ∷ [])) arcs

-- The key (target, kind value, call) by which a node's arcs are sorted.
abbrev pub icfg_arc_order : IcfgArc → IcfgArc → Bool
icfg_arc_order a b = is_le (
    then_compare (str_compare a.target_id b.target_id) (
      then_compare (str_compare (arc_kind_value a.kind) (arc_kind_value b.kind))
        (str_compare a.call_id b.call_id)))

-- By key; the keys of a dictionary differ.
abbrev pub item_order {κ} : {V : Type κ} → String × V → String × V → Bool
item_order a b = str_leb a.0 b.0

-- Every arc, in the order of the appends.
unfoldable pub all_arcs : Icfg → List SemanticOperation → List IcfgArc
unfolding entry_arcs control_arcs embedded_arcs enter_arcs return_arcs resolved_hosts
all_arcs g ordered =
    entry_arcs g ordered
    ++ (control_arcs (resolved_hosts g.call_targets g.call_hosts) g.raw_control_edges
        ++ (embedded_arcs g (sorted item_order g.call_hosts)
            ++ (enter_arcs g (sorted item_order g.call_targets)
                ++ return_arcs g (sorted str_leb (Dict.keys g.call_targets)))))

unfoldable pub build : PyText → Bool → List SemanticOperation → List OperationEdge → Icfg
unfolding linked_graph all_arcs add_arcs
build py include_async ops es =
    let g = linked_graph py include_async ops es in
    record {
      operations = g.operations;
      succs =
          Dict.map_values (sorted icfg_arc_order)
            (add_arcs [] (all_arcs g (sorted operation_order ops)));
      entries = g.entries;
      host_continuations = g.host_continuations;
      call_targets = g.call_targets;
      call_hosts = g.call_hosts;
      raw_control_edges = g.raw_control_edges;
    }
