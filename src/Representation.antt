-- ===== src/Representation.antt =====
-- `SemanticIR` of smartbench/ir/schema.py: the union of two representations.
pub mod Union
pub mod Merge
pub mod Merged
