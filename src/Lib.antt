-- ===== src/Lib.antt =====
-- Tabula, a small LSM tree storage engine, as functions and theorems about them.
--
-- A write goes to the write-ahead log (src/wal.rs) and then to the MemTable (src/memtable.rs). A full
-- MemTable becomes an SSTable (src/sstable/writer.rs), a file of records in key order with a Bloom
-- filter (src/bloom.rs) and a sparse index, which src/sstable/reader.rs reads. src/levels.rs keeps
-- the files in levels and compacts them by the merge of src/compaction.rs. src/lsm.rs is the engine
-- that calls all of these. src/types.rs has the tombstone that stands for a deletion.
--
-- Which file models what:
--   Base, and below it  shared names, list lemmas, byte words, the order of byte strings, outcomes
--   Types               types.rs
--   Fs, and below it    what the program calls of std::fs, std::io and std::path
--   Map, and below it   the BTreeMap: entries in key order
--   Memtable            memtable.rs: new, get, set, delete, size_bytes, scan, flush
--   Wal/Entry           wal.rs: crc32, WalEntry::encode, WalEntry::decode
--   Wal/File            wal.rs: Wal::open, truncate, append, replay
--   Bloom               bloom.rs: new (new_filter), insert, may_contain, to_bytes, from_bytes
--   Sstable/Writer      sstable/writer.rs: SsTableWriter::new, add, finish
--   Sstable/Reader      sstable/reader.rs: SsTableReader::open, get (get_live), get_raw, iter, next
--   Compaction/Heap     compaction.rs: HeapEntry and its heap
--   Compaction/Merge    compaction.rs: merge_sstables
--   Levels/Manager      levels.rs: key_range, ranges_overlap, add_l0_file, needs_compaction
--   Levels/Compact      levels.rs: compact
--   Lsm/Engine          lsm.rs: set, get, delete, flush_memtable, next_sstable_path
--   Lsm/Recovery        lsm.rs: discover_levels, open
--   Lsm/Threads         lsm.rs: set, delete, get, flush_memtable as the steps of a thread
--   Lsm/Threads/System  lsm.rs: the callers, the background thread of open, Drop
--
-- The other files hold proofs, named for what they are about: Wal/Codec (decode after encode),
-- Wal/Torn and Wal/Replay (a log that a crash cut), Wal/Durable (append under faults), Wal/Frame; Bloom/Bits,
-- Positions, Insert, Create, Serial; Memtable/Table, Bounds and Flush; Sstable/Layout (what a file looks
-- like), Stream, Build, Finish, Size and Whole (how the writer makes it), Open, Scan, Search and Lookup (how
-- the reader answers from it); Compaction/Order, Drain and Round (a round of the merge), Streams,
-- Pulled, Refill, Heads, Sources, Ahead and Newest (what a round does to the sources), Merged,
-- Initial, Loop, Emitted and Whole (the whole merge);
-- Levels/Digits, Ranges, Span, Inputs and Compacted; Lsm/Names, Found, Visible, Recovered; Lsm/Sorted,
-- Dated and Discovered (the names of the tables), Lsm/Outside, Sound, Flushed, Full, Refines, Steps and Logged (the
-- invariant of the engine, and the engine as a map); below Lsm/Threads Fair and
-- Exclusive (the log's lock), Rank and Returns (calls end), Alone (against Lsm/Engine), Drop
-- and Lost (a flush between the two halves of a write). Fs/Post
-- states what holds on each way out of a call, Fs/Partial what holds where
-- it returned, and Fs/Frame which files it leaves. Tests holds the theorems at concrete inputs, and
-- Units the unit tests of the source files as functions, each with its run.
--
-- How the code is read. A byte is a number below 256 and a byte string a list of them. A function that
-- returns `Result` or may panic gives an Outcome: ok, err or panic. A method that changes an object
-- returns the new object; a call that touches files maps a World to an outcome and a World. A World
-- holds the files, the coming readings of the clock, and the faults: for each coming call that changes
-- a file, whether it fails, and how much a failing write had written. A read fails only where the
-- file is missing or ends too early. An open file is its contents. Words keep their wrap-around as
-- `% 2 ^ w`. usize is 64 bits, and sums of lengths are taken not to overflow it.
--
-- Parameters and fuel. The f64 arithmetic of BloomFilter::new is a parameter (Bloom/Arith). The
-- loops of Wal::replay, SsTableReader::open, get_raw, SsTableIter and merge_sstables take fuel: each
-- round uses up at least a byte or a record, and they start with one round more than there are bytes
-- (records, in the merge). BinaryHeap is the list of its entries; which of several entries of one key
-- it pops first is left open by its contract, and fixed here.
--
-- Threads. Lsm/Engine has each method as one thread runs it to its end. Lsm/Threads has the same methods
-- as sequences of steps, and Lsm/Threads/System all threads together with the background thread of
-- Lsm::open and Drop. A step is what a thread does under the lock of the MemTable or of the levels, or one
-- call on the log or on an SSTable under the log's lock; so a compaction, which holds the levels' lock
-- throughout, is one step.
--
-- Not modelled: the creation of the folder in Lsm::open, and an error of read_dir there; the panic of
-- SsTableReader::open on a corrupt footer with a length that no buffer can have, which is an error here;
-- the order in which the file calls of one step mix with those of another thread; what a dropped
-- BufWriter still writes after a failure; the unit tests with hundreds of keys or more, or with threads;
-- src/main.rs, src/bin/profile_flush.rs and benches/, which only call the library.
pub mod Base
pub mod Types
pub mod Fs
pub mod Map
pub mod Wal
pub mod Bloom
pub mod Sstable
pub mod Memtable
pub mod Compaction
pub mod Levels
pub mod Lsm
pub mod Tests
pub mod Units
