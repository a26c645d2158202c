-- ===== src/Ir/Values.antt =====
-- The values that an attribute mapping (`Mapping[str, Any]`) of smartbench/ir/operations.py holds, and
-- the operations of Python on them that the analyzers call.
use smart_bench.Prelude.{ℕ, String, Bool, Option, none, some, List, [], ◌∷◌}
use smart_bench.Prelude.Dict.{Dict}

-- `neg_int n` is -(n + 1). `other` is any further object, told apart by a number.
mutual
  pub data Value : Type 0 where
    null : Value
    bool : Bool → Value
    int : ℕ → Value
    neg_int : ℕ → Value
    str : String → Value
    arr : Items → Value
    obj : Fields → Value
    other : ℕ → Value

  pub data Items : Type 0 where
    nil : Items
    cons : Value → Items → Items

  pub data Fields : Type 0 where
    end : Fields
    field : String → Value → Fields → Fields

-- What the analyzers use of Python's text operations: `str` of a value that is no text, `json.dumps`
-- of a mapping with sorted keys, `str.lower`, `a in b` on texts, `str.strip`, and `==` of values.
pub record PyText : Type 0 where
  pub text_of : Value → String
  pub dumps : Dict String Value → String
  pub lower : String → String
  pub is_within : String → String → Bool
  pub strip : String → String
  pub equals : Value → Value → Bool

-- `str(value)`
abbrev pub to_str : PyText → Value → String
to_str py (str s) = s
to_str py null = py.text_of null
to_str py (bool b) = py.text_of (bool b)
to_str py (int n) = py.text_of (int n)
to_str py (neg_int n) = py.text_of (neg_int n)
to_str py (arr xs) = py.text_of (arr xs)
to_str py (obj fs) = py.text_of (obj fs)
to_str py (other n) = py.text_of (other n)

-- `str(attributes.get(key, ""))`
abbrev pub text_or_empty : PyText → Option Value → String
text_or_empty py none = ""
text_or_empty py (some v) = to_str py v

abbrev pub items_to_list : Items → List Value
items_to_list nil = []
items_to_list (cons v vs) = v ∷ items_to_list vs

-- A list or a tuple, as `isinstance(value, (list, tuple))` asks.
abbrev pub as_list : Option Value → Option (List Value)
as_list (some (arr xs)) = some (items_to_list xs)
as_list (some null) = none
as_list (some (bool b)) = none
as_list (some (int n)) = none
as_list (some (neg_int n)) = none
as_list (some (str s)) = none
as_list (some (obj fs)) = none
as_list (some (other n)) = none
as_list none = none
