-- ===== src/Units/TableFiles.antt =====
-- The tests in src/sstable/writer.rs, and those in src/memtable.rs that flush to a file. The disk is
-- empty when a test starts, so the removal of an old file is left out, and in the test of the writer
-- also the removal at the end.
use via_tabula.Base.{
  ◌+◌, ◌-◌, ◌≡◌, refl, Bool, true, ◌&&◌, not, ltb, leb, [], ◌∷◌, length, slice, ok,
}
use via_tabula.Base.Bytes.{Bytes, from_le_bytes, to_le_bytes}
use via_tabula.Base.Order.{cmp}
use via_tabula.Types.{tombstone}
use via_tabula.Fs
use via_tabula.Fs.{
  FilePath, Io, pure, or_err, ◌>>=◌, ◌>>◌, contents, read, remove_file, same_path, with_extension,
}
use via_tabula.Map
use via_tabula.Bloom.{insert, insert_loop, new_filter, set_bit, position, djb2, fnv_1a, to_bytes}
use via_tabula.Bloom.Arith.{Floats}
use via_tabula.Sstable.Writer.{
  SsTableError, io, new_writer, add, finish, tmp_of, record_bytes, checkpoint, index_len,
  write_index,
}
use via_tabula.Memtable
use via_tabula.Memtable.{MemTable, flush}
use via_tabula.Units.Fixtures.{passes, any_window, is_there}
use via_tabula.Tests.Tables.{hundredths}

abbrev path : FilePath
path = record { parent = []; file_name = b't' ∷ b'.' ∷ b's' ∷ b's' ∷ b't' ∷ [] }

abbrev apple : Bytes
apple = b'a' ∷ b'p' ∷ b'p' ∷ b'l' ∷ b'e' ∷ []

abbrev banana : Bytes
banana = b'b' ∷ b'a' ∷ b'n' ∷ b'a' ∷ b'n' ∷ b'a' ∷ []

abbrev cherry : Bytes
cherry = b'c' ∷ b'h' ∷ b'e' ∷ b'r' ∷ b'r' ∷ b'y' ∷ []

-- `path.exists()`
exists : FilePath → Io SsTableError Bool
exists p w = (ok (is_there (contents w.files p)), w)

test_flush_creates_file : Floats → Io SsTableError Bool
unfolding exists
test_flush_creates_file fl = do
  let t = Memtable.set Memtable.empty apple (b'1' ∷ [])
  let t = Memtable.set t banana (b'2' ∷ [])
  let t = Memtable.set t cherry (b'3' ∷ [])
  result ← flush fl t path
  there ← exists path
  or_err (remove_file path) io
  pure (same_path result path && there)

test_flush_creates_file_lem : passes (test_flush_creates_file hundredths) ≡ true
unfolding test_flush_creates_file passes new_writer Fs.create add Fs.write_buffered record_bytes
    to_le_bytes checkpoint insert insert_loop new_filter set_bit position djb2 fnv_1a to_bytes
    Fs.flush_buffer Fs.write_cold Fs.attempt contents Fs.put Fs.rename Fs.without Fs.write_all
    Fs.file_stem same_path with_extension finish index_len write_index cmp remove_file read is_there
    flush Memtable.add_all Memtable.set Map.insert exists
test_flush_creates_file_lem = refl

test_flush_file_has_valid_footer : Floats → Io SsTableError Bool
test_flush_file_has_valid_footer fl = do
  let t = Memtable.set Memtable.empty apple (b'1' ∷ [])
  let t = Memtable.set t banana (b'2' ∷ [])
  flush fl t path
  bytes ← or_err (read path) io
  let footer_start = length bytes - 16
  let index_offset = from_le_bytes (slice footer_start (footer_start + 8) bytes)
  let index_len = from_le_bytes (slice (footer_start + 8) (footer_start + 16) bytes)
  or_err (remove_file path) io
  pure (
      leb 16 (length bytes)
      && ltb index_offset (length bytes)
      && leb (index_offset + index_len) footer_start)

test_flush_file_has_valid_footer_lem : passes (test_flush_file_has_valid_footer hundredths) ≡ true
unfolding test_flush_file_has_valid_footer passes new_writer Fs.create add Fs.write_buffered
    record_bytes to_le_bytes checkpoint insert insert_loop new_filter set_bit position djb2 fnv_1a
    to_bytes Fs.flush_buffer Fs.write_cold Fs.attempt contents Fs.put Fs.rename Fs.without
    Fs.write_all Fs.file_stem same_path with_extension finish index_len write_index cmp remove_file
    read is_there flush Memtable.add_all Memtable.set Map.insert slice from_le_bytes
test_flush_file_has_valid_footer_lem = refl

test_flush_persists_tombstones : Floats → Io SsTableError Bool
test_flush_persists_tombstones fl = do
  let t = Memtable.set Memtable.empty apple (b'1' ∷ [])
  let t = Memtable.set t banana (b'2' ∷ [])
  let t = Memtable.delete t apple
  flush fl t path
  bytes ← or_err (read path) io
  or_err (remove_file path) io
  pure (any_window apple bytes && any_window tombstone bytes)

test_flush_persists_tombstones_lem : passes (test_flush_persists_tombstones hundredths) ≡ true
unfolding test_flush_persists_tombstones passes new_writer Fs.create add Fs.write_buffered
    record_bytes to_le_bytes checkpoint insert insert_loop new_filter set_bit position djb2 fnv_1a
    to_bytes Fs.flush_buffer Fs.write_cold Fs.attempt contents Fs.put Fs.rename Fs.without
    Fs.write_all Fs.file_stem same_path with_extension finish index_len write_index cmp remove_file
    read is_there flush Memtable.add_all Memtable.set Map.insert Memtable.delete any_window
test_flush_persists_tombstones_lem = refl

final_path_does_not_exist_until_finish_succeeds : Floats → Io SsTableError Bool
unfolding exists
final_path_does_not_exist_until_finish_succeeds fl = do
  writer ← new_writer fl path 10
  writer ← add writer (b'k' ∷ b'e' ∷ b'y' ∷ []) (b'v' ∷ b'a' ∷ b'l' ∷ b'u' ∷ b'e' ∷ [])
  early ← exists path
  tmp ← exists (tmp_of path)
  finish writer
  there ← exists path
  tmp_left ← exists (tmp_of path)
  pure (not early && tmp && there && not tmp_left)

final_path_does_not_exist_until_finish_succeeds_lem :
    passes (final_path_does_not_exist_until_finish_succeeds hundredths) ≡ true
unfolding final_path_does_not_exist_until_finish_succeeds passes new_writer Fs.create add
    Fs.write_buffered record_bytes to_le_bytes checkpoint insert insert_loop new_filter set_bit
    position djb2 fnv_1a to_bytes Fs.flush_buffer Fs.write_cold Fs.attempt contents Fs.put Fs.rename
    Fs.without Fs.write_all Fs.file_stem same_path with_extension finish index_len write_index cmp
    remove_file read is_there exists
final_path_does_not_exist_until_finish_succeeds_lem = refl
