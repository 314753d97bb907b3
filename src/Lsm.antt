-- ===== src/Lsm.antt =====
-- src/lsm.rs: the engine.
mod Engine
mod Recovery
pub mod Names
pub mod Found
pub mod Outside
pub mod Sound
pub mod Flushed
pub mod Full
pub mod Refines
pub mod Steps
pub mod Logged
pub mod Threads
pub mod Recovered
pub mod Sorted
pub mod Dated
pub mod Discovered
pub mod Visible
unfoldable pub use Engine.*
unfoldable pub use Recovery.*
