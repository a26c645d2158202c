-- ===== src/Consent.antt =====
-- The local queue of consent requests: smartbench/consent/queue.py.
pub mod Queue
pub mod Staged
pub mod Reached
