-- ===== src/StateMachine/Selector.antt =====
-- `OperationSelector`, `StateInvariant` with its checks, and `StateInvariantViolation`.
use Prim.Native.String.{◌++◌}
use smart_bench.Prelude.{
  ℕ, String, Bool, true, false, not, ◌&&◌, Option, none, some, List, [], ◌∷◌, string_eq, leb, any,
  all, contains, if◌then◌else◌,
}
use smart_bench.Prelude.Dict.{Dict}
use smart_bench.Prelude.Dict
use smart_bench.Ir.Values.{PyText, Value, null}
use smart_bench.Ir.Operations.{SemanticOperation, OperationKind, kind_eq}
use smart_bench.Icfg.Graph.{IcfgPath}

pub record OperationSelector : Type 0 where
  pub kinds : List OperationKind
  pub contains_all : List String
  pub contains_any : List String
  pub attributes : Dict String Value

abbrev is_empty {ℓ} : {A : Type ℓ} → List A → Bool
is_empty [] = true
is_empty (x ∷ xs) = false

-- `" ".join(words)`
abbrev join_words : List String → String
join_words [] = ""
join_words (w ∷ []) = w
join_words (w ∷ v ∷ ws) = w ++ (" " ++ join_words (v ∷ ws))

unfoldable pub searchable : PyText → SemanticOperation → String
searchable py o =
    py.lower (join_words (o.target ∷ o.value ∷ join_words o.operands ∷ py.dumps o.attributes ∷ []))

abbrev attribute_matches : PyText → SemanticOperation → String × Value → Bool
attribute_matches py o (key, expected) = py.equals (Dict.get_or o.attributes key null) expected

unfoldable pub matches : PyText → OperationSelector → SemanticOperation → Bool
unfolding searchable
matches py s o =
    if not (is_empty s.kinds) && not (contains o.kind s.kinds)
    then false
    else if any (λ token. not (py.is_within (py.lower token) (searchable py o))) s.contains_all
    then false
    else if not (is_empty s.contains_any)
        && not (any (λ token. py.is_within (py.lower token) (searchable py o)) s.contains_any)
    then false
    else all (attribute_matches py o) s.attributes

pub data InvariantKind : Type 0 where
  require_guard_before_action : InvariantKind
  forbid_action_after_event : InvariantKind
  require_exit_after_event : InvariantKind

pub data StateScope : Type 0 where
  intraprocedural interprocedural : StateScope

pub record StateInvariant : Type 0 where
  pub invariant_id : String
  pub kind : InvariantKind
  pub event : OperationSelector
  pub action : OperationSelector
  pub guard : Option OperationSelector
  pub exits : OperationSelector
  pub message : String
  pub scope : StateScope
  pub max_call_depth : ℕ

abbrev lacks_guard : InvariantKind → Option OperationSelector → Bool
lacks_guard require_guard_before_action none = true
lacks_guard require_guard_before_action (some g) = false
lacks_guard forbid_action_after_event g = false
lacks_guard require_exit_after_event g = false

-- `__post_init__`: none where it raises ValueError. Scope and depth have their types here.
unfoldable pub post_init : StateInvariant → Option StateInvariant
post_init inv =
    if lacks_guard inv.kind inv.guard
    then none
    else if leb inv.max_call_depth 16
    then some inv
    else none

-- `invariant.guard is not None and invariant.guard.matches(operation)`. Where a guard is required there is one:
-- `_evaluate_scope` asserts it, and `__post_init__` refuses an invariant without.
abbrev pub guard_matches : PyText → StateInvariant → SemanticOperation → Bool
guard_matches py inv o = elim inv.guard [ none ↦ false | some g ↦ matches py g o ]

pub record StateInvariantViolation : Type 0 where
  pub invariant_id : String
  pub message : String
  pub scope_id : String
  pub event : SemanticOperation
  pub action : SemanticOperation
  pub missing : String
  pub path : Option IcfgPath
  pub path_operations : List SemanticOperation

abbrev pub missing_of : InvariantKind → String
missing_of require_guard_before_action = "guard"
missing_of forbid_action_after_event = "forbidden_action"
missing_of require_exit_after_event = "exit"

abbrev pub violation :
    StateInvariant
    → String
    → SemanticOperation
    → SemanticOperation
    → Option IcfgPath
    → List SemanticOperation
    → StateInvariantViolation
violation inv scope_id event action path path_operations = record {
  invariant_id = inv.invariant_id;
  message = inv.message;
  scope_id = scope_id;
  event = event;
  action = action;
  missing = missing_of inv.kind;
  path = path;
  path_operations = path_operations;
}
