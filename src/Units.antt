-- ===== src/Units.antt =====
-- The repository's own unit tests, as tests on the definitions.
mod Fixtures
mod TableFiles
mod ReaderFiles
mod Engines
mod Merges
mod Compactions
mod Filters
mod Logs
mod LogFiles
mod Memtables
