-- ===== src/Units/LogFiles.antt =====
-- The tests in src/wal.rs that write a log and replay it. `unwrap` of an error is the error.
use via_tabula.Base.{
  ◌-◌, ◌≡◌, refl, Bool, true, false, ◌&&◌, List, [], ◌∷◌, ◌++◌, ◌==◌, length, take, slice, ok,
}
use via_tabula.Base.Bytes.{Bytes, to_le_bytes, from_le_bytes}
use via_tabula.Base.Order.{cmp, eqb}
use via_tabula.Fs.{
  FilePath, World, Io, pure, or_err, ◌>>=◌, ◌>>◌, attempt, contents, without, create, open_append,
  write_all, read, remove_file, same_path,
}
use via_tabula.Fs
use via_tabula.Units.Fixtures.{passes}
use via_tabula.Wal.{
  WalEntry, put, delete, WalError, error, encode, body, u32_bytes, crc32, decode, decode_body,
  decode_put, decode_delete, u32_at, check_sum, open_wal, append, replay, replay_all, replay_bytes,
}

abbrev path : FilePath
path = record { parent = b't' ∷ b'm' ∷ b'p' ∷ []; file_name = b'w' ∷ b'a' ∷ b'l' ∷ [] }

abbrev foo : Bytes
foo = b'f' ∷ b'o' ∷ b'o' ∷ []

abbrev bar : Bytes
bar = b'b' ∷ b'a' ∷ b'r' ∷ []

abbrev baz : Bytes
baz = b'b' ∷ b'a' ∷ b'z' ∷ []

abbrev qux : Bytes
qux = b'q' ∷ b'u' ∷ b'x' ∷ []

same_entry : WalEntry → WalEntry → Bool
same_entry (put k v) (put key value) = eqb k key && eqb v value
same_entry (put k v) (delete key) = false
same_entry (delete k) (put key value) = false
same_entry (delete k) (delete key) = eqb k key

same_entries : List WalEntry → List WalEntry → Bool
unfolding same_entry
same_entries [] [] = true
same_entries [] (e ∷ es) = false
same_entries (e ∷ es) [] = false
same_entries (e ∷ es) (e' ∷ es') = same_entry e e' && same_entries es es'

-- `let _ =` takes an error for an answer.
remove_old : Io WalError (Unit {0})
remove_old w = (ok tt, (remove_file path w).1)

test_append_and_replay : Io WalError Bool
unfolding remove_old same_entries
test_append_and_replay = do
  remove_old
  wal ← open_wal path
  append wal (put foo bar) false
  append wal (delete foo) false
  append wal (put baz qux) false
  entries ← replay path
  or_err (remove_file path) error
  pure (same_entries entries (put foo bar ∷ delete foo ∷ put baz qux ∷ []))

test_append_and_replay_lem : passes test_append_and_replay ≡ true
unfolding passes test_append_and_replay append write_all attempt open_wal open_append read
    remove_file contents without Fs.put same_path replay replay_all replay_bytes encode body
    u32_bytes crc32 decode decode_body decode_put decode_delete u32_at check_sum slice to_le_bytes
    from_le_bytes cmp
test_append_and_replay_lem = refl

-- `fs::write`
write : Bytes → Io WalError (Unit {0})
write bytes = do or_err (create path) error; or_err (write_all path bytes) error

test_replay_empty_file : Io WalError Bool
unfolding write
test_replay_empty_file = do
  write []
  entries ← replay path
  or_err (remove_file path) error
  pure (length entries == 0)

test_replay_empty_file_lem : passes test_replay_empty_file ≡ true
unfolding passes test_replay_empty_file write_all attempt create read remove_file contents without
    Fs.put same_path replay replay_all replay_bytes cmp
test_replay_empty_file_lem = refl

-- Two entries, and all but the last three bytes of a third.
raw : Bytes
raw =
    let third_entry_bytes = encode (put baz qux) in
    encode (put foo bar)
    ++ encode (delete foo)
    ++ take (length third_entry_bytes - 3) third_entry_bytes

test_replay_stops_at_truncated_tail_without_failing : Io WalError Bool
unfolding remove_old write same_entries raw
test_replay_stops_at_truncated_tail_without_failing = do
  remove_old
  write raw
  entries ← replay path
  or_err (remove_file path) error
  pure (same_entries entries (put foo bar ∷ delete foo ∷ []))

test_replay_stops_at_truncated_tail_without_failing_lem :
    passes test_replay_stops_at_truncated_tail_without_failing ≡ true
unfolding passes test_replay_stops_at_truncated_tail_without_failing write_all attempt create read
    remove_file contents without Fs.put same_path replay replay_all replay_bytes encode body
    u32_bytes crc32 decode decode_body decode_put decode_delete u32_at check_sum slice to_le_bytes
    from_le_bytes cmp
test_replay_stops_at_truncated_tail_without_failing_lem = refl
