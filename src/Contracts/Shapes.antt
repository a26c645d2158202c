-- ===== src/Contracts/Shapes.antt =====
-- The shapes that the contracts ask for, said of the attributes themselves.
use smart_bench.Prelude.{ℕ, String, ◌≡◌, ◌≢◌, Bool, Option, some, List, map, length, IsIn}
use smart_bench.Ir.Values.{Value, Fields, PyText, bool, int, neg_int, str, obj}
use smart_bench.Ir.Operations.{
  SemanticOperation, OperationKind, function, parameter, assign, update, call, branch, loop, return,
  raise, continue, break, defer, spawn, send, receive, select, emit, unknown,
}
use smart_bench.Debate.Gate.{lookup}
use smart_bench.Contracts.Views.{attribute, text_or}
use smart_bench.Contracts.Validate.{list_value}

-- The attribute is a list of texts.
abbrev pub IsTextList : SemanticOperation → String → Type 0
IsTextList o key = (xs : List String) × (list_value (attribute o key) ≡ some (map str xs))

-- The attribute is absent or a text; a text; a Boolean.
abbrev pub IsTextOrAbsent : Option Value → Type 0
IsTextOrAbsent v = (w : Value) → v ≡ some w → (s : String) × (w ≡ str s)

abbrev pub IsText : Option Value → Type 0
IsText v = (s : String) × (v ≡ some (str s))

abbrev pub IsBool : Option Value → Type 0
IsBool v = (b : Bool) × (v ≡ some (bool b))

-- A position counts from 0, or is -1.
pub data IsPosition : Option Value → Type 0 where
  counted : (n : ℕ) → IsPosition (some (int n))
  unplaced : IsPosition (some (neg_int 0))

-- A mapping whose target is not the empty text.
abbrev pub IsBinding : PyText → Value → Type 0
IsBinding py v = (fs : Fields) × (v ≡ obj fs) × (text_or py (lookup fs "target") "" ≢ "")

-- A name that defaults to the operation's target.
abbrev pub IsNamed : PyText → SemanticOperation → String → Type 0
IsNamed py o key = text_or py (attribute o key) o.target ≢ ""

abbrev pub IsFunction : PyText → SemanticOperation → Type 0
IsFunction py o =
    IsTextList o "return_types" × (IsNamed py o "symbol_name" × IsNamed py o "qualified_name")

abbrev pub IsParameter : SemanticOperation → Type 0
IsParameter o =
    IsPosition (attribute o "position")
    × (IsTextOrAbsent (attribute o "declared_type")
        × (IsText (attribute o "parameter_kind") × IsBool (attribute o "receiver")))

abbrev pub IsAssignment : PyText → SemanticOperation → Type 0
IsAssignment py o =
    (vs : List Value) × (list_value (attribute o "bindings") ≡ some vs)
    × ((v : Value) → IsIn v vs → IsBinding py v)

-- As many names as arguments, where both are lists.
abbrev pub IsAligned : Option (List Value) → Option (List Value) → Type 0
IsAligned a b = (xs ys : List Value) → a ≡ some xs → b ≡ some ys → length xs ≡ length ys

abbrev pub IsCall : SemanticOperation → Type 0
IsCall o =
    IsTextList o "arguments"
    × (IsTextList o "argument_names"
        × (IsTextList o "result_targets"
            × (IsAligned (list_value (attribute o "arguments"))
                  (list_value (attribute o "argument_names"))
                × (IsTextOrAbsent (attribute o "receiver")
                    × IsTextOrAbsent (attribute o "host_operation")))))

-- What the contract of an operation's kind asks for; other kinds carry no contract.
abbrev pub HasShape : PyText → SemanticOperation → OperationKind → Type 0
HasShape py o function = IsFunction py o
HasShape py o parameter = IsParameter o
HasShape py o assign = IsAssignment py o
HasShape py o call = IsCall o
HasShape py o spawn = IsCall o
HasShape py o defer = IsCall o
HasShape py o return = IsTextList o "values"
HasShape py o update = Unit
HasShape py o branch = Unit
HasShape py o loop = Unit
HasShape py o raise = Unit
HasShape py o continue = Unit
HasShape py o break = Unit
HasShape py o send = Unit
HasShape py o receive = Unit
HasShape py o select = Unit
HasShape py o emit = Unit
HasShape py o unknown = Unit
