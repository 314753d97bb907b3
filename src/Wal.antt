-- ===== src/Wal.antt =====
-- src/wal.rs: the entries of the write-ahead log, the log file, and its replay.
mod Entry
mod File
pub mod Frame
pub mod Codec
pub mod Torn
pub mod Replay
pub mod Durable
unfoldable pub use Entry.*
unfoldable pub use File.*
