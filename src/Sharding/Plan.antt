-- ===== src/Sharding/Plan.antt =====
-- The partition of files into shards: smartbench/sharding/plan.py.
mod Text
mod Build
mod Counts
mod Chunks
mod Keeps
mod Loop
mod Size
mod Moves
mod Rounds
pub use Text.{PathText}
unfoldable pub use Text.{normalize, skipped, group_key}
unfoldable pub use Build.*
pub use Counts.{count, count-append}
pub use Chunks.{plan_files, is_bounded}
pub use Keeps.*
pub use Loop.*
pub use Size.*
pub use Rounds.*
