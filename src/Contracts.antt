-- ===== src/Contracts.antt =====
-- smartbench/ir/contracts.py: the shape that the attributes of an operation must have.
pub mod Views
pub mod Validate
pub mod Shapes
pub mod Parts
pub mod Accepts
