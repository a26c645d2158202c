-- ===== src/Contracts/Accepts.antt =====
-- The validation of smartbench/ir/contracts.py against the shapes that the contracts ask for.
use smart_bench.Prelude.{
  String, ◌≡◌, ◌↔◌, refl, List, [], ◌∷◌, string_eq, nat_eq, map, flat_map, sorted, IsIn,
  IsIn-sorted, IsIn-sorted_back, iff_trans,
}
use smart_bench.Ir.Values.{PyText}
use smart_bench.Ir.Operations.{
  SemanticOperation, OperationKind, function, parameter, assign, update, call, branch, loop, return,
  raise, continue, break, defer, spawn, send, receive, select, emit, unknown, operation_order,
}
use smart_bench.Contracts.Parts.{
  both_iff, is_text_or_absent_iff, is_some_text_iff, is_some_bool_iff, position_errors_iff,
  require_string_list_iff, named_iff, alignment_errors_iff, list_errors_iff, IsIn-every_iff,
  of_unless,
}
use smart_bench.Contracts.Views.{attribute, text_or}
use smart_bench.Contracts.Validate.{
  list_value, function_errors, parameter_errors, call_errors, kind_errors,
  validate_operation_contract, located_errors, validate_semantic_ir,
}
use smart_bench.Contracts.Shapes.{IsFunction, IsParameter, IsCall, HasShape}

function_errors_iff :
    (py : PyText) (o : SemanticOperation) → (function_errors py o ≡ []) ↔ IsFunction py o
unfolding function_errors
function_errors_iff py o = both_iff _ _ (require_string_list_iff o "return_types") (
    both_iff _ _
      (of_unless _ "symbol_name must be non-empty"
        (named_iff (text_or py (attribute o "symbol_name") o.target)))
      (of_unless _ "qualified_name must be non-empty"
        (named_iff (text_or py (attribute o "qualified_name") o.target))))

parameter_errors_iff : (o : SemanticOperation) → (parameter_errors o ≡ []) ↔ IsParameter o
unfolding parameter_errors
parameter_errors_iff o = both_iff _ _ (position_errors_iff (attribute o "position")) (
    both_iff _ _
      (of_unless _ "declared_type must be a string"
        (is_text_or_absent_iff (attribute o "declared_type")))
      (both_iff _ _
        (of_unless _ "parameter_kind must be a string"
          (is_some_text_iff (attribute o "parameter_kind")))
        (of_unless _ "receiver must be a boolean" (is_some_bool_iff (attribute o "receiver")))))

call_errors_iff : (o : SemanticOperation) → (call_errors o ≡ []) ↔ IsCall o
unfolding call_errors
call_errors_iff o = both_iff _ _ (require_string_list_iff o "arguments") (
    both_iff _ _ (require_string_list_iff o "argument_names") (
      both_iff _ _ (require_string_list_iff o "result_targets") (
        both_iff _ _
          (alignment_errors_iff (list_value (attribute o "arguments"))
            (list_value (attribute o "argument_names")))
          (both_iff _ _
            (of_unless _ "receiver must be a string"
              (is_text_or_absent_iff (attribute o "receiver")))
            (of_unless _ "host_operation must be a string"
              (is_text_or_absent_iff (attribute o "host_operation")))))))

abbrev no_errors : List String
no_errors = []

always : (no_errors ≡ []) ↔ Unit {0}
always = (λ e. tt, λ u. refl)

kind_errors_iff :
    (py : PyText) (o : SemanticOperation) (k : OperationKind)
    → (kind_errors py o k ≡ []) ↔ HasShape py o k
unfolding kind_errors
kind_errors_iff py o function = function_errors_iff py o
kind_errors_iff py o parameter = parameter_errors_iff o
kind_errors_iff py o assign = list_errors_iff py (list_value (attribute o "bindings"))
kind_errors_iff py o call = call_errors_iff o
kind_errors_iff py o spawn = call_errors_iff o
kind_errors_iff py o defer = call_errors_iff o
kind_errors_iff py o return = require_string_list_iff o "values"
kind_errors_iff py o update = always
kind_errors_iff py o branch = always
kind_errors_iff py o loop = always
kind_errors_iff py o raise = always
kind_errors_iff py o continue = always
kind_errors_iff py o break = always
kind_errors_iff py o send = always
kind_errors_iff py o receive = always
kind_errors_iff py o select = always
kind_errors_iff py o emit = always
kind_errors_iff py o unknown = always

-- Of every kind: an operation passes exactly if its attributes have the shape of the kind's contract.
pub validate_operation_contract_iff :
    (py : PyText) (o : SemanticOperation)
    → (validate_operation_contract py o ≡ []) ↔ HasShape py o o.kind
unfolding validate_operation_contract
validate_operation_contract_iff py o = kind_errors_iff py o o.kind

map_empty_iff {ℓ κ} :
    {A : Type ℓ} {B : Type κ} (f : A → B) (xs : List A) → (map f xs ≡ []) ↔ (xs ≡ [])
map_empty_iff f [] = (λ e. refl, λ e. refl)
map_empty_iff f (x ∷ xs) = (λ e. absurd (cc), λ e. absurd (cc))

all_empty_iff :
    (py : PyText) (os : List SemanticOperation)
    → (flat_map (located_errors py) os ≡ [])
      ↔ ((o : SemanticOperation) → IsIn o os → HasShape py o o.kind)
all_empty_iff py [] = (λ e o m. elim m [ ], λ h. refl)
all_empty_iff py (o ∷ os) =
    iff_trans
      (both_iff _ _
        (iff_trans (map_empty_iff _ (validate_operation_contract py o))
          (validate_operation_contract_iff py o))
        (all_empty_iff py os))
      (IsIn-every_iff {P = λ x. HasShape py x x.kind} o os)

-- Validation of a whole representation reports nothing exactly if every operation of it has the shape
-- that the contract of its kind asks for.
pub validate_semantic_ir_iff :
    (py : PyText) (operations : List SemanticOperation)
    → (validate_semantic_ir py operations ≡ [])
      ↔ ((o : SemanticOperation) → IsIn o operations → HasShape py o o.kind)
unfolding validate_semantic_ir
validate_semantic_ir_iff py operations =
    iff_trans (all_empty_iff py (sorted operation_order operations)) (
      λ h o m. h o (IsIn-sorted_back operation_order m),
      λ h o m. h o (IsIn-sorted operation_order m),
    )
