-- ===== src/ControlFlow.antt =====
-- The control-flow graph of one function and its queries: smartbench/analysis/control_flow.py.
pub mod Graph
pub mod Linked
pub mod Reach
pub mod Between
pub mod Dominators
