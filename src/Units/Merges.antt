-- ===== src/Units/Merges.antt =====
-- The test in src/compaction.rs, without the removal of the files at its end.
use via_tabula.Base.{
  ◌≡◌, refl, Bool, true, ◌&&◌, not, Option, none, some, List, [], ◌∷◌, ◌==◌, length, slice,
}
use via_tabula.Base.Bytes.{Bytes, from_le_bytes, to_le_bytes}
use via_tabula.Base.Order.{cmp, eqb}
use via_tabula.Types.{hide_tombstone, is_tombstone}
use via_tabula.Map
use via_tabula.Map.{Entries}
use via_tabula.Fs
use via_tabula.Fs.{
  FilePath, World, Exec, Io, pure, lift, or_err, convert, ◌>>=◌, ◌>>◌, contents, read, remove_file,
  same_path, with_extension,
}
use via_tabula.Bloom.{
  insert, insert_loop, new_filter, set_bit, position, djb2, fnv_1a, to_bytes, from_bytes,
  may_contain, may_contain_loop, get_bit,
}
use via_tabula.Bloom.Arith.{Floats}
use via_tabula.Sstable.Writer.{
  new_writer, add, finish, record_bytes, checkpoint, index_len, write_index,
}
use via_tabula.Sstable.Reader.{
  SsTableReader, open_table, open_bytes, parse_index, read_exact, get_live, get_raw, look_up,
  scan_from, scan, start_offset, binary_search, read_record, iter, next,
}
use via_tabula.Compaction.{
  CompactionError, from_sstable, merge_sstables, items, collect, count_records, pull, fill, better,
  drain, refill, merge_round, merge_loop, initial_state, push, take_min, pop,
}
use via_tabula.Memtable
use via_tabula.Memtable.{MemTable, flush}
use via_tabula.Units.Fixtures.{passes, same_option}
use via_tabula.Tests.Tables.{hundredths}

abbrev apple : Bytes
apple = b'a' ∷ b'p' ∷ b'p' ∷ b'l' ∷ b'e' ∷ []

abbrev banana : Bytes
banana = b'b' ∷ b'a' ∷ b'n' ∷ b'a' ∷ b'n' ∷ b'a' ∷ []

abbrev cherry : Bytes
cherry = b'c' ∷ b'h' ∷ b'e' ∷ b'r' ∷ b'r' ∷ b'y' ∷ []

abbrev date : Bytes
date = b'd' ∷ b'a' ∷ b't' ∷ b'e' ∷ []

abbrev elderberry : Bytes
elderberry = b'e' ∷ b'l' ∷ b'd' ∷ b'e' ∷ b'r' ∷ b'b' ∷ b'e' ∷ b'r' ∷ b'r' ∷ b'y' ∷ []

abbrev fig : Bytes
fig = b'f' ∷ b'i' ∷ b'g' ∷ []

abbrev grape : Bytes
grape = b'g' ∷ b'r' ∷ b'a' ∷ b'p' ∷ b'e' ∷ []

abbrev new_apple : Bytes
new_apple = b'n' ∷ b'e' ∷ b'w' ∷ b'-' ∷ b'a' ∷ b'p' ∷ b'p' ∷ b'l' ∷ b'e' ∷ []

abbrev old_apple : Bytes
old_apple = b'o' ∷ b'l' ∷ b'd' ∷ b'-' ∷ b'a' ∷ b'p' ∷ b'p' ∷ b'l' ∷ b'e' ∷ []

abbrev cherry_val : Bytes
cherry_val = b'c' ∷ b'h' ∷ b'e' ∷ b'r' ∷ b'r' ∷ b'y' ∷ b'-' ∷ b'v' ∷ b'a' ∷ b'l' ∷ []

abbrev old_banana : Bytes
old_banana = b'o' ∷ b'l' ∷ b'd' ∷ b'-' ∷ b'b' ∷ b'a' ∷ b'n' ∷ b'a' ∷ b'n' ∷ b'a' ∷ []

abbrev date_val : Bytes
date_val = b'd' ∷ b'a' ∷ b't' ∷ b'e' ∷ b'-' ∷ b'v' ∷ b'a' ∷ b'l' ∷ []

abbrev elderberry_val : Bytes
elderberry_val =
    b'e' ∷ b'l' ∷ b'd' ∷ b'e' ∷ b'r' ∷ b'b' ∷ b'e' ∷ b'r' ∷ b'r' ∷ b'y' ∷ b'-' ∷ b'v' ∷ b'a' ∷ b'l'
    ∷ []

abbrev fig_val : Bytes
fig_val = b'f' ∷ b'i' ∷ b'g' ∷ b'-' ∷ b'v' ∷ b'a' ∷ b'l' ∷ []

abbrev grape_val : Bytes
grape_val = b'g' ∷ b'r' ∷ b'a' ∷ b'p' ∷ b'e' ∷ b'-' ∷ b'v' ∷ b'a' ∷ b'l' ∷ []

abbrev old_cherry : Bytes
old_cherry = b'o' ∷ b'l' ∷ b'd' ∷ b'-' ∷ b'c' ∷ b'h' ∷ b'e' ∷ b'r' ∷ b'r' ∷ b'y' ∷ []

-- A `Some` value is set, and a `None` deletes the key.
apply_ops : List (Bytes × Option Bytes) → MemTable → MemTable
apply_ops [] t = t
apply_ops ((key, some v) ∷ ops) t = apply_ops ops (Memtable.set t key v)
apply_ops ((key, none) ∷ ops) t = apply_ops ops (Memtable.delete t key)

abbrev path_of : Bytes → FilePath
path_of name = record { parent = []; file_name = name }

build_sstable : Floats → Bytes → List (Bytes × Option Bytes) → Io CompactionError FilePath
unfolding apply_ops
build_sstable fl name ops =
    convert from_sstable (flush fl (apply_ops ops Memtable.empty) (path_of name))

abbrev opened : FilePath → Io CompactionError SsTableReader
opened path = convert from_sstable (open_table path)

-- `get` gives this value for the key.
gives : SsTableReader → Bytes → Option Bytes → Io CompactionError Bool
gives merged key expected = do
  value ← convert from_sstable (lift (get_live merged key))
  pure (same_option value expected)

-- The keys of all records are different; they are in order, so that equal ones are side by side.
all_unique : Entries → Bool
all_unique [] = true
all_unique ((k, v) ∷ []) = true
all_unique ((k, v) ∷ (k', v') ∷ rest) = not (eqb k k') && all_unique ((k', v') ∷ rest)

merge_sstables_dedupes_tombstones_and_keeps_newest : Floats → Io CompactionError Bool
unfolding build_sstable gives all_unique
merge_sstables_dedupes_tombstones_and_keeps_newest fl = do
  p0 ← build_sstable fl (b'0' ∷ []) ((apple, some new_apple) ∷ (banana, none) ∷ [])
  p1 ← build_sstable fl (b'1' ∷ []) ((apple, some old_apple) ∷ (cherry, some cherry_val) ∷ [])
  p2 ← build_sstable fl (b'2' ∷ []) ((banana, some old_banana) ∷ (date, some date_val) ∷ [])
  p3 ← build_sstable fl (b'3' ∷ []) ((elderberry, some elderberry_val) ∷ [])
  p4 ← build_sstable fl (b'4' ∷ []) ((fig, some fig_val) ∷ [])
  p5 ← build_sstable fl (b'5' ∷ []) ((grape, some grape_val) ∷ (cherry, some old_cherry) ∷ [])
  r0 ← opened p0
  r1 ← opened p1
  r2 ← opened p2
  r3 ← opened p3
  r4 ← opened p4
  r5 ← opened p5
  let output_path = path_of (b'o' ∷ [])
  merge_sstables fl (r0 ∷ r1 ∷ r2 ∷ r3 ∷ r4 ∷ r5 ∷ []) output_path
  merged ← opened output_path
  a ← gives merged apple (some new_apple)
  b ← gives merged banana none
  c ← gives merged cherry (some cherry_val)
  d ← gives merged date (some date_val)
  e ← gives merged elderberry (some elderberry_val)
  f ← gives merged fig (some fig_val)
  g ← gives merged grape (some grape_val)
  let all = collect (iter merged)
  pure (a && b && c && d && e && f && g && length all == 6 && all_unique all)

merge_sstables_dedupes_tombstones_and_keeps_newest_lem :
    passes (merge_sstables_dedupes_tombstones_and_keeps_newest hundredths) ≡ true
unfolding merge_sstables_dedupes_tombstones_and_keeps_newest passes same_option flush
    Memtable.add_all Memtable.set Memtable.delete Map.insert new_writer Fs.create add
    Fs.write_buffered record_bytes to_le_bytes checkpoint insert insert_loop new_filter set_bit
    position djb2 fnv_1a to_bytes Fs.flush_buffer Fs.write_cold Fs.attempt contents Fs.put Fs.rename
    Fs.without Fs.write_all Fs.file_stem same_path with_extension finish index_len write_index cmp
    read open_table open_bytes from_bytes slice from_le_bytes parse_index read_exact get_live
    get_raw may_contain may_contain_loop get_bit look_up scan_from scan start_offset binary_search
    read_record hide_tombstone is_tombstone collect items iter next merge_sstables count_records
    pull fill better drain refill merge_round merge_loop initial_state push take_min pop
merge_sstables_dedupes_tombstones_and_keeps_newest_lem = refl
