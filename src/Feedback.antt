-- ===== src/Feedback.antt =====
-- Human feedback on findings, and the stability of repeated reviews: smartbench/feedback/policy.py and smartbench/llm/trials.py.
pub mod Events
pub mod Priors
pub mod Rank
pub mod Ranked
pub mod Trials
