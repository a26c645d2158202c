-- ===== src/ControlFlow/Between.antt =====
-- `dominates_between`, `branch_controls` and `_reachable_without` of
-- smartbench/analysis/control_flow.py.
mod Loop
mod Avoid
mod Without
mod Branch
unfoldable pub use Loop.*
pub use Avoid.*
pub use Branch.{reachable_without_iff, Arrives, Controls, branch_controls_iff}
