-- ===== src/Examples/Data.antt =====
-- A function whose event leads to its action through a branch, and a second function that the first one calls.
use smart_bench.Prelude.{
  String, ◌≡◌, ◌≢◌, ◌==◌, string_eq, true, false, none, some, List, [], ◌∷◌, arith,
}
use smart_bench.Ir.Values.{PyText}
use smart_bench.Ir.Operations.{
  EvidenceRef, OperationKind, OperationEdge, OperationEdgeKind, SemanticOperation, next,
  true_branch, false_branch,
}
use smart_bench.StateMachine.Selector.{
  OperationSelector, StateInvariant, require_guard_before_action, intraprocedural,
}

abbrev pub plain_text : PyText
plain_text = record {
  text_of = λ v. "";
  dumps = λ d. "";
  lower = λ s. s;
  is_within = λ a b. a == b;
  strip = λ s. s;
  equals = λ a b. true;
}

abbrev pub place : EvidenceRef
place = record {
  file_path = "a.py";
  line_start = 1;
  line_end = some 1;
  column_start = none;
  column_end = none;
  snippet = "";
  source = "deterministic";
}

abbrev pub operation : String → String → OperationKind → SemanticOperation
operation id scope_id kind = record {
  id = id;
  kind = kind;
  language = "python";
  scope_id = scope_id;
  location = place;
  target = "";
  value = "";
  operands = [];
  attributes = [];
}

abbrev pub edge : String → String → OperationEdgeKind → OperationEdge
edge source_id target_id kind = record {
  source_id = source_id;
  target_id = target_id;
  kind = kind;
  attributes = [];
}

abbrev pub event : SemanticOperation
event = operation "e" "f" OperationKind.assign

abbrev pub guard : SemanticOperation
guard = operation "g" "f" OperationKind.branch

abbrev pub action : SemanticOperation
action = operation "a" "f" OperationKind.update

abbrev pub in_f : List SemanticOperation
in_f = event ∷ guard ∷ action ∷ operation "x" "f" OperationKind.return ∷ []

abbrev pub edges_f : List OperationEdge
edges_f = edge "e" "g" next ∷ edge "g" "a" true_branch ∷ edge "g" "x" false_branch ∷ []

abbrev pub of_kind : OperationKind → OperationSelector
of_kind kind = record { kinds = kind ∷ []; contains_all = []; contains_any = []; attributes = [] }

abbrev pub guard_first : StateInvariant
guard_first = record {
  invariant_id = "guard-first";
  kind = require_guard_before_action;
  event = of_kind OperationKind.assign;
  action = of_kind OperationKind.update;
  guard = some (of_kind OperationKind.branch);
  exits = of_kind OperationKind.return;
  message = "unguarded";
  scope = intraprocedural;
  max_call_depth = 4;
}

-- `e` calls `h`, whose only operation is `r`.
abbrev pub with_call : List SemanticOperation
with_call =
    event
    ∷ operation "c" "f" OperationKind.call
    ∷ operation "n" "f" OperationKind.update
    ∷ operation "h" "m" OperationKind.function
    ∷ operation "r" "h" OperationKind.return
    ∷ []

abbrev pub edges_call : List OperationEdge
edges_call =
    edge "e" "c" next
    ∷ edge "c" "n" next
    ∷ edge "h" "r" OperationEdgeKind.contains
    ∷ edge "c" "h" OperationEdgeKind.calls
    ∷ []

pub apart : (a b : String) → a == b ≡ false → a ≢ b
apart a b h = ground (arith, string_eq.same_iff a b)
