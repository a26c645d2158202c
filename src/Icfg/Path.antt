-- ===== src/Icfg/Path.antt =====
-- The bounded path query of smartbench/analysis/icfg.py.
mod Loop
mod Sound
mod Total
unfoldable pub use Loop.*
pub use Sound.*
pub use Total.*
