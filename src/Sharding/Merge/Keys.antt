-- ===== src/Sharding/Merge/Keys.antt =====
-- `_suggestion_key`, `_sort_key` and `_strength`: what a finding is identified, ordered and preferred by.
use smart_bench.Prelude.{
  ℕ, String, Bool, true, false, not, Option, none, some, ◌==◌, string_eq, nat_eq, length,
  if◌then◌else◌, then_compare, is_le, str_compare,
}
use Prim.Native.Nat.{Ordering, compare}
use smart_bench.Ir.Values.{
  Value, Fields, PyText, null, bool, int, neg_int, str, arr, obj, other, nil, cons, end, field,
  to_str, items_to_list,
}
use smart_bench.Debate.Gate.{lookup}
use smart_bench.Sharding.Merge.Whole.{ℤ, pos, compare_whole}

-- What the module uses of Python: `int(value)`, none where it raises; `text.partition(":")` without the
-- separator; `text.split("-")[0]`; the order of `float(value or 0.0)`, 0.0 where it raises; and the truth of
-- objects other than those that JSON has.
pub record ShardText : Type 0 where
  pub py : PyText
  pub to_int : Value → Option ℤ
  pub partition : String → String × String
  pub before_dash : String → String
  pub compare_confidence : Option Value → Option Value → Ordering
  pub is_true_other : ℕ → Bool

-- `bool(value)`
abbrev pub is_true : ShardText → Value → Bool
is_true t null = false
is_true t (bool b) = b
is_true t (int n) = not (n == 0)
is_true t (neg_int n) = true
is_true t (str s) = not (s == "")
is_true t (arr nil) = false
is_true t (arr (cons v vs)) = true
is_true t (obj end) = false
is_true t (obj (field k v fs)) = true
is_true t (other n) = t.is_true_other n

-- `str(value or default)`, the value being a `get`.
abbrev pub text_or : ShardText → Option Value → String → String
text_or t none s = s
text_or t (some v) s = if is_true t v then to_str t.py v else s

abbrev pub first_text : String → String → String
first_text a b = if a == "" then b else a

abbrev or_whole : Option ℤ → ℤ → ℤ
or_whole none d = d
or_whole (some n) d = n

-- `_as_int(value, default)`; `int(None)` raises.
abbrev pub as_int : ShardText → Option Value → ℤ → ℤ
as_int t none d = d
as_int t (some v) d = or_whole (t.to_int v) d

abbrev Place : Type 0
Place = String × ℤ

abbrev located : ShardText → Place → Option Value → Place
located t (path, line) (some (obj fs)) =
    (text_or t (lookup fs "file_path") path, as_int t (lookup fs "line_start") line)
located t (path, line) (some (str s)) =
    let (before, after) = t.partition s in
    (first_text before path, as_int t (some (str (t.before_dash after))) line)
located t place (some null) = place
located t place (some (bool b)) = place
located t place (some (int n)) = place
located t place (some (neg_int n)) = place
located t place (some (arr xs)) = place
located t place (some (other n)) = place
located t place none = place

abbrev pub Key : Type 0
Key = String × (String × ℤ)

unfoldable pub suggestion_key : ShardText → Fields → Key
suggestion_key t s =
    let place =
      located t (text_or t (lookup s "file_path") "", as_int t (lookup s "line_start") (pos 0))
        (lookup s "location") in
    (text_or t (lookup s "rule_id") "", place)

-- The order of `_sort_key`: path, line, rule, title.
unfoldable pub sort_order : ShardText → Fields → Fields → Bool
sort_order t a b =
    let (rule_a, (path_a, line_a)) = suggestion_key t a in
    let (rule_b, (path_b, line_b)) = suggestion_key t b in
    is_le (
      then_compare (str_compare path_a path_b) (
        then_compare (compare_whole line_a line_b) (
          then_compare (str_compare rule_a rule_b)
            (str_compare (text_or t (lookup a "title") "") (text_or t (lookup b "title") "")))))

abbrev list_length : Option Value → ℕ
list_length (some (arr xs)) = length (items_to_list xs)
list_length (some null) = 0
list_length (some (bool b)) = 0
list_length (some (int n)) = 0
list_length (some (neg_int n)) = 0
list_length (some (str s)) = 0
list_length (some (obj fs)) = 0
list_length (some (other n)) = 0
list_length none = 0

unfoldable pub evidence_count : Fields → ℕ
evidence_count s = list_length (lookup s "evidence")

abbrev pub is_gt : Ordering → Bool
is_gt Ordering.gt = true
is_gt Ordering.eq = false
is_gt Ordering.lt = false

-- `_strength(a) > _strength(b)`
unfoldable pub is_stronger : ShardText → Fields → Fields → Bool
unfolding evidence_count
is_stronger t a b = is_gt (
    then_compare (t.compare_confidence (lookup a "confidence") (lookup b "confidence"))
      (compare (evidence_count a) (evidence_count b)))
