-- ===== src/Ir.antt =====
-- The canonical semantic intermediate representation: smartbench/ir.
pub mod Values
pub mod Operations
