-- ===== src/Sharding.antt =====
-- Review in shards: smartbench/sharding.
pub mod Plan
pub mod Merge
pub mod Runner
pub mod Reviewed
pub mod Packs
