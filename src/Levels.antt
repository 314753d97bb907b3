-- ===== src/Levels.antt =====
-- src/levels.rs: `LevelManager`.
mod Name
mod Manager
mod Compact
pub mod Digits
pub mod Ranges
pub mod Span
pub mod Inputs
pub mod Compacted
unfoldable pub use Name.*
unfoldable pub use Manager.*
unfoldable pub use Compact.*
