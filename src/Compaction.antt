-- ===== src/Compaction.antt =====
-- src/compaction.rs: the k-way merge of SSTables.
mod Heap
mod Merge
pub mod Order
pub mod Drain
pub mod Round
pub mod Streams
pub mod Pulled
pub mod Refill
pub mod Heads
pub mod Sources
pub mod Ahead
pub mod Newest
pub mod Merged
pub mod Initial
pub mod Loop
pub mod Emitted
pub mod Whole
unfoldable pub use Heap.*
unfoldable pub use Merge.*
