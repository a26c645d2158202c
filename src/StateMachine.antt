-- ===== src/StateMachine.antt =====
-- State invariants over semantic operations: smartbench/analysis/state_machine.py and state_paths.py.
pub mod Selector
pub mod Scope
pub mod Cross
pub mod Analyze
pub mod Paths
