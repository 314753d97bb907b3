-- ===== src/Units/Compactions.antt =====
-- The tests in src/levels.rs, without the removal of the files at their ends.
use via_tabula.Base.{
  ℕ, ◌≡◌, refl, Bool, true, false, ◌&&◌, not, Option, none, some, List, [], ◌∷◌, ◌==◌, length,
  slice, get_elem?, if◌then◌else◌, ◌||◌, ok, err, panic,
}
use via_tabula.Base.Bytes.{Bytes, from_le_bytes, to_le_bytes}
use via_tabula.Base.Order.{cmp}
use via_tabula.Types.{hide_tombstone, is_tombstone}
use via_tabula.Map
use via_tabula.Map.{Entries}
use via_tabula.Fs
use via_tabula.Fs.{
  FilePath, World, Exec, Io, pure, lift, or_err, convert, ◌>>=◌, ◌>>◌, contents, read, remove_file,
  same_path, with_extension,
}
use via_tabula.Bloom.{
  insert, insert_loop, new_filter, set_bit, position, djb2, fnv_1a, to_bytes, from_bytes,
  may_contain, may_contain_loop, get_bit,
}
use via_tabula.Bloom.Arith.{Floats}
use via_tabula.Sstable.Writer.{
  new_writer, add, finish, record_bytes, checkpoint, index_len, write_index,
}
use via_tabula.Sstable.Reader.{
  open_table, open_bytes, parse_index, read_exact, get_live, get_raw, look_up, scan_from, scan,
  start_offset, binary_search, read_record, iter, next,
}
use via_tabula.Compaction.{
  CompactionError, from_sstable, merge_sstables, items, collect, count_records, pull, fill, better,
  drain, refill, merge_round, merge_loop, initial_state, push, take_min, pop,
}
use via_tabula.Memtable
use via_tabula.Memtable.{MemTable, flush}
use via_tabula.Fs.{with_file_name, join}
use via_tabula.Levels.{
  LevelManager, new_manager, add_l0_file, needs_compaction, compact, read_l0, open_all,
  combined_range, key_range, range_of, merge_into_l1, split_l1, ranges_overlap, remove_all,
  compact_levels, table_name, decimal,
}
use via_tabula.Units.Fixtures.{passes, same_option, is_there}
use via_tabula.Tests.Tables.{hundredths}

abbrev apple : Bytes
apple = b'a' ∷ b'p' ∷ b'p' ∷ b'l' ∷ b'e' ∷ []

abbrev banana : Bytes
banana = b'b' ∷ b'a' ∷ b'n' ∷ b'a' ∷ b'n' ∷ b'a' ∷ []

abbrev cherry : Bytes
cherry = b'c' ∷ b'h' ∷ b'e' ∷ b'r' ∷ b'r' ∷ b'y' ∷ []

abbrev date : Bytes
date = b'd' ∷ b'a' ∷ b't' ∷ b'e' ∷ []

abbrev zebra : Bytes
zebra = b'z' ∷ b'e' ∷ b'b' ∷ b'r' ∷ b'a' ∷ []

abbrev newest : Bytes
newest = b'n' ∷ b'e' ∷ b'w' ∷ b'e' ∷ b's' ∷ b't' ∷ []

abbrev stale : Bytes
stale = b's' ∷ b't' ∷ b'a' ∷ b'l' ∷ b'e' ∷ []

abbrev k : Bytes
k = b'k' ∷ []

abbrev v : Bytes
v = b'v' ∷ []

abbrev banana_val : Bytes
banana_val = b'b' ∷ b'a' ∷ b'n' ∷ b'a' ∷ b'n' ∷ b'a' ∷ b'-' ∷ b'v' ∷ b'a' ∷ b'l' ∷ []

abbrev cherry_val : Bytes
cherry_val = b'c' ∷ b'h' ∷ b'e' ∷ b'r' ∷ b'r' ∷ b'y' ∷ b'-' ∷ b'v' ∷ b'a' ∷ b'l' ∷ []

abbrev apple_val : Bytes
apple_val = b'a' ∷ b'p' ∷ b'p' ∷ b'l' ∷ b'e' ∷ b'-' ∷ b'v' ∷ b'a' ∷ b'l' ∷ []

abbrev date_val : Bytes
date_val = b'd' ∷ b'a' ∷ b't' ∷ b'e' ∷ b'-' ∷ b'v' ∷ b'a' ∷ b'l' ∷ []

abbrev old_zebra : Bytes
old_zebra = b'o' ∷ b'l' ∷ b'd' ∷ b'-' ∷ b'z' ∷ b'e' ∷ b'b' ∷ b'r' ∷ b'a' ∷ []

build_sstable : Floats → Bytes → Bytes → Bytes → Io CompactionError FilePath
build_sstable fl name key value =
    convert from_sstable
      (flush fl (Memtable.set Memtable.empty key value) (record { parent = []; file_name = name }))

-- A call of `compact` in a test on the files.
compacted : Floats → LevelManager → Io CompactionError LevelManager
compacted fl manager w =
    let (r, e) = compact fl (manager, w) in
    elim r [ ok t ↦ (ok e.0, e.1) | err x ↦ (err x, e.1) | panic ↦ (panic, e.1) ]

exists : FilePath → Io CompactionError Bool
exists p w = (ok (is_there (contents w.files p)), w)

level : LevelManager → ℕ → List FilePath
level manager n = elim (get_elem? manager.levels n) [ none ↦ [] | some paths ↦ paths ]

-- `levels[1][0]`
first_path : List FilePath → FilePath
first_path [] = record { parent = []; file_name = [] }
first_path (p ∷ paths) = p

contains : FilePath → List FilePath → Bool
contains p [] = false
contains p (q ∷ paths) = same_path q p || contains p paths

-- `.find(|p| **p != untouched_path)`
find_other : FilePath → List FilePath → FilePath
find_other p [] = p
find_other p (q ∷ paths) = let later = find_other p paths in if same_path q p then later else q

-- The value of a key in the table of this name.
value_in : FilePath → Bytes → Io CompactionError (Option Bytes)
value_in path key = convert from_sstable (open_table path >>= λ reader. lift (get_live reader key))

needs_compaction_true_once_l0_hits_threshold : Floats → Io CompactionError Bool
unfolding build_sstable
needs_compaction_true_once_l0_hits_threshold fl = do
  p0 ← build_sstable fl (b'0' ∷ []) k v
  p1 ← build_sstable fl (b'1' ∷ []) k v
  p2 ← build_sstable fl (b'2' ∷ []) k v
  let three = add_l0_file (add_l0_file (add_l0_file new_manager p0) p1) p2
  p3 ← build_sstable fl (b'3' ∷ []) k v
  pure (
      not (needs_compaction new_manager)
      && not (needs_compaction three)
      && needs_compaction (add_l0_file three p3))

compact_merges_l0_into_l1_and_clears_l0 : Floats → Io CompactionError Bool
unfolding build_sstable compacted exists level first_path value_in
compact_merges_l0_into_l1_and_clears_l0 fl = do
  p0 ← build_sstable fl (b'0' ∷ []) apple newest
  p1 ← build_sstable fl (b'1' ∷ []) apple stale
  p2 ← build_sstable fl (b'2' ∷ []) banana banana_val
  p3 ← build_sstable fl (b'3' ∷ []) cherry cherry_val
  let manager = add_l0_file (add_l0_file (add_l0_file (add_l0_file new_manager p0) p1) p2) p3
  manager ← compacted fl manager
  e0 ← exists p0
  e1 ← exists p1
  e2 ← exists p2
  e3 ← exists p3
  let l1_path = first_path (level manager 1)
  a ← value_in l1_path apple
  b ← value_in l1_path banana
  c ← value_in l1_path cherry
  pure (
      not (e0 || e1 || e2 || e3)
      && length (level manager 0) == 0
      && length (level manager 1) == 1
      && same_option a (some newest)
      && same_option b (some banana_val)
      && same_option c (some cherry_val))

compact_leaves_non_overlapping_l1_file_untouched : Floats → Io CompactionError Bool
unfolding build_sstable compacted level contains find_other value_in
compact_leaves_non_overlapping_l1_file_untouched fl = do
  untouched_path ← build_sstable fl (b'u' ∷ []) zebra old_zebra
  let manager : LevelManager = record { levels = [] ∷ (untouched_path ∷ []) ∷ [] }
  p0 ← build_sstable fl (b'0' ∷ []) apple apple_val
  p1 ← build_sstable fl (b'1' ∷ []) banana banana_val
  p2 ← build_sstable fl (b'2' ∷ []) cherry cherry_val
  p3 ← build_sstable fl (b'3' ∷ []) date date_val
  let manager = add_l0_file (add_l0_file (add_l0_file (add_l0_file manager p0) p1) p2) p3
  manager ← compacted fl manager
  z ← value_in untouched_path zebra
  let merged_path = find_other untouched_path (level manager 1)
  a ← value_in merged_path apple
  d ← value_in merged_path date
  pure (
      length (level manager 1) == 2
      && contains untouched_path (level manager 1)
      && same_option z (some old_zebra)
      && same_option a (some apple_val)
      && same_option d (some date_val))

needs_compaction_true_once_l0_hits_threshold_lem :
    passes (needs_compaction_true_once_l0_hits_threshold hundredths) ≡ true
unfolding needs_compaction_true_once_l0_hits_threshold passes flush Memtable.add_all Memtable.set
    Memtable.delete Map.insert new_writer Fs.create add Fs.write_buffered record_bytes to_le_bytes
    checkpoint insert insert_loop new_filter set_bit position djb2 fnv_1a to_bytes Fs.flush_buffer
    Fs.write_cold Fs.attempt contents Fs.put Fs.rename Fs.without Fs.write_all Fs.file_stem
    same_path with_extension finish index_len write_index cmp read add_l0_file needs_compaction
needs_compaction_true_once_l0_hits_threshold_lem = refl

compact_merges_l0_into_l1_and_clears_l0_lem :
    passes (compact_merges_l0_into_l1_and_clears_l0 hundredths) ≡ true
unfolding compact_merges_l0_into_l1_and_clears_l0 passes flush Memtable.add_all Memtable.set
    Memtable.delete Map.insert new_writer Fs.create add Fs.write_buffered record_bytes to_le_bytes
    checkpoint insert insert_loop new_filter set_bit position djb2 fnv_1a to_bytes Fs.flush_buffer
    Fs.write_cold Fs.attempt contents Fs.put Fs.rename Fs.without Fs.write_all Fs.file_stem
    same_path with_extension finish index_len write_index cmp read open_table open_bytes from_bytes
    slice from_le_bytes parse_index read_exact get_live get_raw may_contain may_contain_loop get_bit
    look_up scan_from scan start_offset binary_search read_record hide_tombstone is_tombstone
    collect items iter next merge_sstables count_records pull fill better drain refill merge_round
    merge_loop initial_state push take_min pop add_l0_file Fs.now compact read_l0 open_all
    combined_range key_range range_of merge_into_l1 split_l1 ranges_overlap remove_all
    compact_levels table_name decimal with_file_name remove_file join is_there same_option
compact_merges_l0_into_l1_and_clears_l0_lem = refl

compact_leaves_non_overlapping_l1_file_untouched_lem :
    passes (compact_leaves_non_overlapping_l1_file_untouched hundredths) ≡ true
unfolding compact_leaves_non_overlapping_l1_file_untouched passes flush Memtable.add_all
    Memtable.set Memtable.delete Map.insert new_writer Fs.create add Fs.write_buffered record_bytes
    to_le_bytes checkpoint insert insert_loop new_filter set_bit position djb2 fnv_1a to_bytes
    Fs.flush_buffer Fs.write_cold Fs.attempt contents Fs.put Fs.rename Fs.without Fs.write_all
    Fs.file_stem same_path with_extension finish index_len write_index cmp read open_table
    open_bytes from_bytes slice from_le_bytes parse_index read_exact get_live get_raw may_contain
    may_contain_loop get_bit look_up scan_from scan start_offset binary_search read_record
    hide_tombstone is_tombstone collect items iter next merge_sstables count_records pull fill
    better drain refill merge_round merge_loop initial_state push take_min pop add_l0_file Fs.now
    compact read_l0 open_all combined_range key_range range_of merge_into_l1 split_l1 ranges_overlap
    remove_all compact_levels table_name decimal with_file_name remove_file join is_there
    same_option
compact_leaves_non_overlapping_l1_file_untouched_lem = refl
