-- ===== src/Contracts/Views.antt =====
-- The contract records that are read off an operation's attributes. A tuple is no value of the model.
use smart_bench.Prelude.{String, Option, none, some, List, [], map, string_eq}
use smart_bench.Prelude.Dict.{Dict}
use smart_bench.Prelude.Dict
use smart_bench.Ir.Values.{
  Value, PyText, null, bool, int, neg_int, str, arr, obj, other, to_str, as_list,
}
use smart_bench.Ir.Operations.{SemanticOperation}
use smart_bench.Debate.Gate.{lookup}

abbrev pub attribute : SemanticOperation → String → Option Value
attribute o key = Dict.get o.attributes key

-- `str(attributes.get(key, default))`
abbrev pub text_or : PyText → Option Value → String → String
text_or py none s = s
text_or py (some v) s = to_str py v

abbrev texts_of : PyText → Option (List Value) → List String
texts_of py none = []
texts_of py (some vs) = map (to_str py) vs

-- `_string_tuple(attributes.get(key, ()))`
unfoldable pub string_tuple : PyText → Option Value → List String
string_tuple py v = texts_of py (as_list v)

pub record FunctionContract : Type 0 where
  pub symbol_name : String
  pub qualified_name : String
  pub namespace : String
  pub receiver_type : String
  pub return_types : List String

unfoldable pub function_contract : PyText → SemanticOperation → FunctionContract
unfolding string_tuple
function_contract py o = record {
  symbol_name = text_or py (attribute o "symbol_name") o.target;
  qualified_name = text_or py (attribute o "qualified_name") o.target;
  namespace = text_or py (attribute o "namespace") "";
  receiver_type = text_or py (attribute o "receiver_type") "";
  return_types = string_tuple py (attribute o "return_types");
}

pub record BindingContract : Type 0 where
  pub target : String
  pub declared_type : String
  pub inferred_type : String

-- `BindingContract.from_value`; none where it raises ValueError.
unfoldable pub binding_contract : PyText → Value → Option BindingContract
binding_contract py (obj fs) = some (record {
  target = text_or py (lookup fs "target") "";
  declared_type = text_or py (lookup fs "declared_type") "";
  inferred_type = text_or py (lookup fs "inferred_type") "";
})
binding_contract py null = none
binding_contract py (bool b) = none
binding_contract py (int n) = none
binding_contract py (neg_int n) = none
binding_contract py (str s) = none
binding_contract py (arr xs) = none
binding_contract py (other n) = none

pub record CallContract : Type 0 where
  pub target : String
  pub receiver : String
  pub arguments : List String
  pub argument_names : List String
  pub result_targets : List String
  pub host_operation : String

unfoldable pub call_contract : PyText → SemanticOperation → CallContract
unfolding string_tuple
call_contract py o = record {
  target = o.target;
  receiver = text_or py (attribute o "receiver") "";
  arguments = string_tuple py (attribute o "arguments");
  argument_names = string_tuple py (attribute o "argument_names");
  result_targets = string_tuple py (attribute o "result_targets");
  host_operation = text_or py (attribute o "host_operation") "";
}
