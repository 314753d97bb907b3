-- ===== src/Sstable.antt =====
-- src/sstable/: the SSTable file, its writer and its reader.
pub mod Writer
pub mod Reader
pub mod Layout
pub mod Scan
pub mod Search
pub mod Open
pub mod Lookup
pub mod Stream
pub mod Build
pub mod Finish
pub mod Size
pub mod Whole
