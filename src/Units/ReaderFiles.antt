-- ===== src/Units/ReaderFiles.antt =====
-- The tests in src/sstable/reader.rs on a table with a deleted key, without the removal of the file
-- at their end.
use via_tabula.Base.{◌≡◌, refl, Bool, true, ◌&&◌, none, some, [], ◌∷◌, slice}
use via_tabula.Base.Bytes.{Bytes, from_le_bytes, to_le_bytes}
use via_tabula.Base.Order.{cmp}
use via_tabula.Types.{tombstone, hide_tombstone, is_tombstone}
use via_tabula.Map
use via_tabula.Map.{Entries}
use via_tabula.Fs
use via_tabula.Fs.{
  FilePath, Io, pure, lift, or_err, convert, ◌>>=◌, ◌>>◌, contents, read, remove_file, same_path,
  with_extension,
}
use via_tabula.Bloom.{
  insert, insert_loop, new_filter, set_bit, position, djb2, fnv_1a, to_bytes, from_bytes,
  may_contain, may_contain_loop, get_bit,
}
use via_tabula.Bloom.Arith.{Floats}
use via_tabula.Sstable.Writer.{
  SsTableError, new_writer, add, finish, record_bytes, checkpoint, index_len, write_index,
}
use via_tabula.Sstable.Reader.{
  open_table, open_bytes, parse_index, read_exact, get_live, get_raw, look_up, scan_from, scan,
  start_offset, binary_search, read_record, iter, next,
}
use via_tabula.Compaction.{items, collect}
use via_tabula.Memtable
use via_tabula.Memtable.{MemTable, flush}
use via_tabula.Units.Fixtures.{passes, same_option, same_pairs}
use via_tabula.Tests.Tables.{hundredths}

abbrev path : FilePath
path = record { parent = []; file_name = b't' ∷ b'.' ∷ b's' ∷ b's' ∷ b't' ∷ [] }

abbrev alive : Bytes
alive = b'a' ∷ b'l' ∷ b'i' ∷ b'v' ∷ b'e' ∷ []

abbrev gone : Bytes
gone = b'g' ∷ b'o' ∷ b'n' ∷ b'e' ∷ []

abbrev still_here : Bytes
still_here = b's' ∷ b't' ∷ b'i' ∷ b'l' ∷ b'l' ∷ b' ' ∷ b'h' ∷ b'e' ∷ b'r' ∷ b'e' ∷ []

abbrev will_be_deleted : Bytes
will_be_deleted =
    b'w' ∷ b'i' ∷ b'l' ∷ b'l' ∷ b' ' ∷ b'b' ∷ b'e' ∷ b' ' ∷ b'd' ∷ b'e' ∷ b'l' ∷ b'e' ∷ b't' ∷ b'e'
    ∷ b'd' ∷ []

abbrev memtable : MemTable
memtable =
    Memtable.delete
      (Memtable.set (Memtable.set Memtable.empty alive still_here) gone will_be_deleted) gone

get_returns_none_for_keys_deleted_before_flush : Floats → Io SsTableError Bool
get_returns_none_for_keys_deleted_before_flush fl = do
  flush fl memtable path
  reader ← open_table path
  first ← lift (get_live reader alive)
  second ← lift (get_live reader gone)
  pure (same_option first (some still_here) && same_option second none)

get_returns_none_for_keys_deleted_before_flush_lem :
    passes (get_returns_none_for_keys_deleted_before_flush hundredths) ≡ true
unfolding get_returns_none_for_keys_deleted_before_flush passes flush Memtable.add_all Memtable.set
    Memtable.delete Map.insert new_writer Fs.create add Fs.write_buffered record_bytes to_le_bytes
    checkpoint insert insert_loop new_filter set_bit position djb2 fnv_1a to_bytes Fs.flush_buffer
    Fs.write_cold Fs.attempt contents Fs.put Fs.rename Fs.without Fs.write_all Fs.file_stem
    same_path with_extension finish index_len write_index cmp read open_table open_bytes from_bytes
    slice from_le_bytes parse_index read_exact get_live get_raw may_contain may_contain_loop get_bit
    look_up scan_from scan start_offset binary_search read_record same_option hide_tombstone
    is_tombstone
get_returns_none_for_keys_deleted_before_flush_lem = refl

iter_still_surfaces_raw_tombstone_records : Floats → Io SsTableError Bool
iter_still_surfaces_raw_tombstone_records fl = do
  flush fl memtable path
  reader ← open_table path
  pure (same_pairs (collect (iter reader)) ((alive, still_here) ∷ (gone, tombstone) ∷ []))

iter_still_surfaces_raw_tombstone_records_lem :
    passes (iter_still_surfaces_raw_tombstone_records hundredths) ≡ true
unfolding iter_still_surfaces_raw_tombstone_records passes flush Memtable.add_all Memtable.set
    Memtable.delete Map.insert new_writer Fs.create add Fs.write_buffered record_bytes to_le_bytes
    checkpoint insert insert_loop new_filter set_bit position djb2 fnv_1a to_bytes Fs.flush_buffer
    Fs.write_cold Fs.attempt contents Fs.put Fs.rename Fs.without Fs.write_all Fs.file_stem
    same_path with_extension finish index_len write_index cmp read open_table open_bytes from_bytes
    slice from_le_bytes parse_index read_exact collect items iter next read_record same_pairs
iter_still_surfaces_raw_tombstone_records_lem = refl
