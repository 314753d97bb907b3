-- ===== src/Fs.antt =====
-- The part of std::fs, std::io and std::path that the program calls: named files, and operations that
-- may fail. A world is what a call may read or change outside its arguments.
mod Path
mod Calls
mod Buffer
mod Rules
pub mod Post
pub mod Partial
pub mod Frame
unfoldable pub use Path.*
unfoldable pub use Calls.*
unfoldable pub use Buffer.*
pub use Rules.*
