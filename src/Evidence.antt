-- ===== src/Evidence.antt =====
-- Facts and evidence packs: smartbench/ir/evidence.py, and the facts of
-- smartbench/analysis/state_machine.py and state_paths.py.
pub mod Pack
pub mod Facts
