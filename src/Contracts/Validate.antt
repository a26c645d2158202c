-- ===== src/Contracts/Validate.antt =====
-- `validate_operation_contract` and `validate_semantic_ir`. Errors are listed in the order in which the
-- source appends them.
use smart_bench.Prelude.{
  ℕ, suc, String, Bool, true, false, not, Option, none, some, List, [], ◌∷◌, ◌++◌, ◌==◌, string_eq,
  nat_eq, length, map, flat_map, sorted, any,
}
use Prim.Native.String.{◌++◌ as push_str}
use smart_bench.Ir.Values.{
  Value, PyText, null, bool, int, neg_int, str, arr, obj, other, items_to_list,
}
use smart_bench.Ir.Operations.{
  SemanticOperation, OperationKind, function, parameter, assign, update, call, branch, loop, return,
  raise, continue, break, defer, spawn, send, receive, select, emit, unknown, operation_order,
}
use smart_bench.Contracts.Views.{attribute, text_or, BindingContract, binding_contract}

-- `isinstance(value, str)`
abbrev pub is_text : Value → Bool
is_text (str s) = true
is_text null = false
is_text (bool b) = false
is_text (int n) = false
is_text (neg_int n) = false
is_text (arr xs) = false
is_text (obj fs) = false
is_text (other n) = false

-- `isinstance(attributes.get(key, default), str)` with a text as the default, and without one.
abbrev pub is_text_or_absent : Option Value → Bool
is_text_or_absent none = true
is_text_or_absent (some v) = is_text v

abbrev pub is_some_text : Option Value → Bool
is_some_text none = false
is_some_text (some v) = is_text v

abbrev pub is_some_bool : Option Value → Bool
is_some_bool (some (bool b)) = true
is_some_bool (some null) = false
is_some_bool (some (int n)) = false
is_some_bool (some (neg_int n)) = false
is_some_bool (some (str s)) = false
is_some_bool (some (arr xs)) = false
is_some_bool (some (obj fs)) = false
is_some_bool (some (other n)) = false
is_some_bool none = false

-- `isinstance(value, list)`
abbrev pub list_value : Option Value → Option (List Value)
list_value (some (arr xs)) = some (items_to_list xs)
list_value (some null) = none
list_value (some (bool b)) = none
list_value (some (int n)) = none
list_value (some (neg_int n)) = none
list_value (some (str s)) = none
list_value (some (obj fs)) = none
list_value (some (other n)) = none
list_value none = none

-- An error where the test fails.
abbrev pub unless : Bool → String → List String
unless true error = []
unless false error = error ∷ []

abbrev pub entry_errors : String → Option (List Value) → List String
entry_errors key none = push_str key " must be a list" ∷ []
entry_errors key (some vs) =
    unless (not (any (λ v. not (is_text v)) vs)) (push_str key " entries must be strings")

unfoldable pub require_string_list : SemanticOperation → String → List String
require_string_list o key = entry_errors key (list_value (attribute o key))

abbrev pub is_empty : String → Bool
is_empty s = s == ""

abbrev pub position_errors : Option Value → List String
position_errors (some (int n)) = []
position_errors (some (neg_int n)) = unless (n == 0) "position must be >= -1"
position_errors (some null) = "position must be an integer" ∷ []
position_errors (some (bool b)) = "position must be an integer" ∷ []
position_errors (some (str s)) = "position must be an integer" ∷ []
position_errors (some (arr xs)) = "position must be an integer" ∷ []
position_errors (some (obj fs)) = "position must be an integer" ∷ []
position_errors (some (other n)) = "position must be an integer" ∷ []
position_errors none = "position must be an integer" ∷ []

abbrev numbered : PyText → ℕ → String → String
numbered py index rest = push_str "bindings[" (push_str (py.text_of (int index)) rest)

abbrev pub binding_errors : PyText → ℕ → Option BindingContract → List String
binding_errors py index none = numbered py index "]: binding must be an object" ∷ []
binding_errors py index (some b) =
    unless (not (is_empty b.target)) (numbered py index "].target must be non-empty")

unfoldable pub bindings_errors : PyText → ℕ → List Value → List String
unfolding binding_contract
bindings_errors py index [] = []
bindings_errors py index (v ∷ vs) =
    binding_errors py index (binding_contract py v) ++ bindings_errors py (suc index) vs

abbrev pub list_errors : PyText → Option (List Value) → List String
list_errors py none = "bindings must be a list" ∷ []
list_errors py (some vs) = bindings_errors py 0 vs

abbrev pub alignment_errors : Option (List Value) → Option (List Value) → List String
alignment_errors (some xs) (some ys) =
    unless (length xs == length ys) "argument_names must align with arguments"
alignment_errors (some xs) none = []
alignment_errors none ys = []

unfoldable pub function_errors : PyText → SemanticOperation → List String
unfolding require_string_list
function_errors py o =
    require_string_list o "return_types"
    ++ (unless (not (is_empty (text_or py (attribute o "symbol_name") o.target)))
          "symbol_name must be non-empty"
        ++ (unless (not (is_empty (text_or py (attribute o "qualified_name") o.target)))
            "qualified_name must be non-empty"))

unfoldable pub parameter_errors : SemanticOperation → List String
parameter_errors o =
    position_errors (attribute o "position")
    ++ (unless (is_text_or_absent (attribute o "declared_type")) "declared_type must be a string"
        ++ (unless (is_some_text (attribute o "parameter_kind")) "parameter_kind must be a string"
            ++ (unless (is_some_bool (attribute o "receiver")) "receiver must be a boolean")))

unfoldable pub call_errors : SemanticOperation → List String
unfolding require_string_list
call_errors o =
    require_string_list o "arguments"
    ++ (require_string_list o "argument_names"
        ++ (require_string_list o "result_targets"
            ++ (alignment_errors (list_value (attribute o "arguments"))
                  (list_value (attribute o "argument_names"))
                ++ (unless (is_text_or_absent (attribute o "receiver")) "receiver must be a string"
                    ++ (unless (is_text_or_absent (attribute o "host_operation"))
                        "host_operation must be a string")))))

-- The chain of tests on the kind.
unfoldable pub kind_errors : PyText → SemanticOperation → OperationKind → List String
unfolding function_errors parameter_errors call_errors bindings_errors require_string_list
kind_errors py o function = function_errors py o
kind_errors py o parameter = parameter_errors o
kind_errors py o assign = list_errors py (list_value (attribute o "bindings"))
kind_errors py o call = call_errors o
kind_errors py o spawn = call_errors o
kind_errors py o defer = call_errors o
kind_errors py o return = require_string_list o "values"
kind_errors py o update = []
kind_errors py o branch = []
kind_errors py o loop = []
kind_errors py o raise = []
kind_errors py o continue = []
kind_errors py o break = []
kind_errors py o send = []
kind_errors py o receive = []
kind_errors py o select = []
kind_errors py o emit = []
kind_errors py o unknown = []

unfoldable pub validate_operation_contract : PyText → SemanticOperation → List String
unfolding kind_errors
validate_operation_contract py o = kind_errors py o o.kind

abbrev pub located_errors : PyText → SemanticOperation → List String
located_errors py o =
    map (λ error. push_str o.id (push_str ": " error)) (validate_operation_contract py o)

unfoldable pub validate_semantic_ir : PyText → List SemanticOperation → List String
unfolding validate_operation_contract
validate_semantic_ir py operations =
    flat_map (located_errors py) (sorted operation_order operations)
