-- ===== src/Ir/Operations.antt =====
-- smartbench/ir/operations.py and the source reference of smartbench/ir/evidence.py.
use smart_bench.Prelude.{
  ℕ, String, ◌≡◌, ◌↔◌, Bool, true, Option, none, some, List, arith, eqb, Eq, then_compare, is_le,
  str_compare,
}
use Prim.Native.Nat.{compare}
use smart_bench.Prelude.Dict.{Dict}
use smart_bench.Ir.Values.{Value}

pub data OperationKind : Type 0 where
  function parameter assign update call branch loop return raise continue break : OperationKind
  defer spawn send receive select emit unknown : OperationKind

abbrev kind_index : OperationKind → ℕ
kind_index function = 0
kind_index parameter = 1
kind_index assign = 2
kind_index update = 3
kind_index call = 4
kind_index branch = 5
kind_index loop = 6
kind_index return = 7
kind_index raise = 8
kind_index continue = 9
kind_index break = 10
kind_index defer = 11
kind_index spawn = 12
kind_index send = 13
kind_index receive = 14
kind_index select = 15
kind_index emit = 16
kind_index unknown = 17

abbrev kind_beq : OperationKind → OperationKind → Bool
kind_beq a b = eqb (kind_index a) (kind_index b)

pub kind_beq_iff : (a b : OperationKind) → (kind_beq a b ≡ true) ↔ (a ≡ b)
kind_beq_iff a b = ground arith

instance abbrev pub kind_eq : Eq OperationKind
kind_eq = record { same = kind_beq; same_iff = kind_beq_iff }

pub data OperationEdgeKind : Type 0 where
  contains next true_branch false_branch body loop_back loop_exit calls : OperationEdgeKind
  data_dependency synchronizes : OperationEdgeKind

-- The enumeration's values, by which arcs are sorted.
abbrev pub edge_kind_value : OperationEdgeKind → String
edge_kind_value contains = "contains"
edge_kind_value next = "next"
edge_kind_value true_branch = "true_branch"
edge_kind_value false_branch = "false_branch"
edge_kind_value body = "body"
edge_kind_value loop_back = "loop_back"
edge_kind_value loop_exit = "loop_exit"
edge_kind_value calls = "calls"
edge_kind_value data_dependency = "data_dependency"
edge_kind_value synchronizes = "synchronizes"

abbrev edge_kind_index : OperationEdgeKind → ℕ
edge_kind_index contains = 0
edge_kind_index next = 1
edge_kind_index true_branch = 2
edge_kind_index false_branch = 3
edge_kind_index body = 4
edge_kind_index loop_back = 5
edge_kind_index loop_exit = 6
edge_kind_index calls = 7
edge_kind_index data_dependency = 8
edge_kind_index synchronizes = 9

abbrev edge_kind_beq : OperationEdgeKind → OperationEdgeKind → Bool
edge_kind_beq a b = eqb (edge_kind_index a) (edge_kind_index b)

pub edge_kind_beq_iff : (a b : OperationEdgeKind) → (edge_kind_beq a b ≡ true) ↔ (a ≡ b)
edge_kind_beq_iff a b = ground arith

instance abbrev pub edge_kind_eq : Eq OperationEdgeKind
edge_kind_eq = record { same = edge_kind_beq; same_iff = edge_kind_beq_iff }

pub record EvidenceRef : Type 0 where
  pub file_path : String
  pub line_start : ℕ
  pub line_end : Option ℕ
  pub column_start : Option ℕ
  pub column_end : Option ℕ
  pub snippet : String
  pub source : String

pub record SemanticOperation : Type 0 where
  pub id : String
  pub kind : OperationKind
  pub language : String
  pub scope_id : String
  pub location : EvidenceRef
  pub target : String
  pub value : String
  pub operands : List String
  pub attributes : Dict String Value

pub record OperationEdge : Type 0 where
  pub source_id : String
  pub target_id : String
  pub kind : OperationEdgeKind
  pub attributes : Dict String Value

-- `column_start or 0`
abbrev column_or_zero : Option ℕ → ℕ
column_or_zero none = 0
column_or_zero (some n) = n

-- The key (file, line, column, id) by which the analyzers sort operations.
abbrev pub operation_order : SemanticOperation → SemanticOperation → Bool
operation_order a b = is_le (
    then_compare (str_compare a.location.file_path b.location.file_path) (
      then_compare (compare a.location.line_start b.location.line_start) (
        then_compare
          (compare (column_or_zero a.location.column_start)
            (column_or_zero b.location.column_start))
          (str_compare a.id b.id))))
