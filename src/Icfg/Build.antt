-- ===== src/Icfg/Build.antt =====
-- How the constructor of `InterproceduralControlFlowGraph` fills its state (`_build`).
mod Phases
mod Traced
mod Kinds
mod Arcs
unfoldable pub use Phases.*
pub use Kinds.{Fits}
pub use Arcs.*
