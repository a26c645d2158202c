-- ===== src/Debate.antt =====
-- The debate of proposer, critique and judge: smartbench/engine/debate.py.
pub mod Gate
pub mod Call
pub mod Run
