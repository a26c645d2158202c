-- ===== src/Code/Schema.antt =====
-- Nodes and edges of smartbench/graph/schema.py.
use smart_bench.Prelude.{
  ℕ, String, ◌≡◌, ◌↔◌, refl, Bool, true, Option, none, some, List, [], ◌∷◌, arith, eqb, Eq, ◌==◌,
  string_eq, if◌then◌else◌,
}
use smart_bench.Ir.Values.{Fields}

pub data NodeType : Type 0 where
  file module_ class function variable import annotation : NodeType

abbrev pub node_type_value : NodeType → String
node_type_value file = "file"
node_type_value module_ = "module"
node_type_value class = "class"
node_type_value function = "function"
node_type_value variable = "variable"
node_type_value import = "import"
node_type_value annotation = "annotation"

pub data EdgeType : Type 0 where
  contains calls imports inherits implements references returns decorates annotates : EdgeType

abbrev pub edge_type_value : EdgeType → String
edge_type_value contains = "contains"
edge_type_value calls = "calls"
edge_type_value imports = "imports"
edge_type_value inherits = "inherits"
edge_type_value implements = "implements"
edge_type_value references = "references"
edge_type_value returns = "returns"
edge_type_value decorates = "decorates"
edge_type_value annotates = "annotates"

abbrev node_types : List NodeType
node_types = file ∷ module_ ∷ class ∷ function ∷ variable ∷ import ∷ annotation ∷ []

abbrev edge_types : List EdgeType
edge_types =
    contains ∷ calls ∷ imports ∷ inherits ∷ implements ∷ references ∷ returns ∷ decorates
    ∷ annotates ∷ []

-- `Enumeration(text)`: the first member with that value; none where Python raises ValueError.
abbrev member_of {ℓ} : {A : Type ℓ} → (A → String) → List A → String → Option A
member_of value [] s = none
member_of value (x ∷ xs) s = if value x == s then some x else member_of value xs s

-- `NodeType(text)`
unfoldable pub node_type_of : String → Option NodeType
node_type_of = member_of node_type_value node_types

-- `EdgeType(text)`
unfoldable pub edge_type_of : String → Option EdgeType
edge_type_of = member_of edge_type_value edge_types

-- An enumeration's member is read back from its value.
pub node_type_of-node_type_value : (t : NodeType) → node_type_of (node_type_value t) ≡ some t
unfolding node_type_of
node_type_of-node_type_value file = refl
node_type_of-node_type_value module_ = refl
node_type_of-node_type_value class = refl
node_type_of-node_type_value function = refl
node_type_of-node_type_value variable = refl
node_type_of-node_type_value import = refl
node_type_of-node_type_value annotation = refl

pub edge_type_of-edge_type_value : (t : EdgeType) → edge_type_of (edge_type_value t) ≡ some t
unfolding edge_type_of
edge_type_of-edge_type_value contains = refl
edge_type_of-edge_type_value calls = refl
edge_type_of-edge_type_value imports = refl
edge_type_of-edge_type_value inherits = refl
edge_type_of-edge_type_value implements = refl
edge_type_of-edge_type_value references = refl
edge_type_of-edge_type_value returns = refl
edge_type_of-edge_type_value decorates = refl
edge_type_of-edge_type_value annotates = refl

abbrev edge_index : EdgeType → ℕ
edge_index contains = 0
edge_index calls = 1
edge_index imports = 2
edge_index inherits = 3
edge_index implements = 4
edge_index references = 5
edge_index returns = 6
edge_index decorates = 7
edge_index annotates = 8

abbrev edge_type_beq : EdgeType → EdgeType → Bool
edge_type_beq a b = eqb (edge_index a) (edge_index b)

pub edge_type_beq_iff : (a b : EdgeType) → (edge_type_beq a b ≡ true) ↔ (a ≡ b)
edge_type_beq_iff a b = ground arith

instance abbrev pub edge_type_eq : Eq EdgeType
edge_type_eq = record { same = edge_type_beq; same_iff = edge_type_beq_iff }

abbrev node_index : NodeType → ℕ
node_index file = 0
node_index module_ = 1
node_index class = 2
node_index function = 3
node_index variable = 4
node_index import = 5
node_index annotation = 6

abbrev node_type_beq : NodeType → NodeType → Bool
node_type_beq a b = eqb (node_index a) (node_index b)

pub node_type_beq_iff : (a b : NodeType) → (node_type_beq a b ≡ true) ↔ (a ≡ b)
node_type_beq_iff a b = ground arith

instance abbrev pub node_type_eq : Eq NodeType
node_type_eq = record { same = node_type_beq; same_iff = node_type_beq_iff }

pub record CodeNode : Type 0 where
  pub id : String
  pub node_type : NodeType
  pub name : String
  pub file_path : String
  pub line_start : ℕ
  pub line_end : ℕ
  pub language : String
  pub properties : Fields

pub record CodeEdge : Type 0 where
  pub source_id : String
  pub target_id : String
  pub edge_type : EdgeType
  pub properties : Fields
