-- ===== src/ControlFlow/Dominators.antt =====
-- `dominates` and `_dominators` of smartbench/analysis/control_flow.py.
mod Loop
mod Sets
mod Sweep
mod Nodes
mod Entries
mod Correct
unfoldable pub use Loop.*
pub use Correct.{Route, start, onward, dominates_iff}
