-- ===== src/Sharding/Merge.antt =====
-- smartbench/sharding/merge.py: the results of the shards' debates as one result.
pub mod Whole
pub mod Keys
pub mod Combine
pub mod Kept
pub mod Result
pub mod Status
