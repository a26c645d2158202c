-- ===== src/StateMachine/Scope.antt =====
-- `_evaluate_scope` and `_guard_proves_action`: an invariant inside one function.
mod Evaluate
mod Correct
unfoldable pub use Evaluate.*
pub use Correct.*
