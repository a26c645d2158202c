-- ===== src/Flow.antt =====
-- Variables in scopes, of the data-flow analysis: smartbench/flow/scope.py.
pub mod Scope
pub mod Frames
pub mod Refines
