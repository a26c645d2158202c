-- ===== src/ControlFlow/Reach.antt =====
-- `ControlFlowGraph.reachable` of smartbench/analysis/control_flow.py and its cache.
mod Loop
mod Correct
mod Cache
unfoldable pub use Loop.{reach_loop, reachable, node_count}
pub use Correct.*
unfoldable pub use Cache.{cached_reachable, ask_all}
pub use Cache.{ReachabilityCache, IsSound, ask_all-map}
