-- ===== src/Icfg.antt =====
-- Bounded interprocedural control-flow queries: smartbench/analysis/icfg.py.
pub mod Graph
pub mod Build
pub mod Path
