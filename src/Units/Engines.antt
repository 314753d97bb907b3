-- ===== src/Units/Engines.antt =====
-- The tests in src/lsm.rs that make no SSTable, without the background thread, which finds nothing
-- to do in them, and on a folder that is empty at first, so that none is removed.
use via_tabula.Base.{◌≡◌, refl, Bool, true, ◌&&◌, none, some, [], ◌∷◌, slice}
use via_tabula.Base.Bytes.{Bytes, from_le_bytes, to_le_bytes}
use via_tabula.Base.Order.{cmp}
use via_tabula.Types.{hide_tombstone, is_tombstone}
use via_tabula.Map
use via_tabula.Fs
use via_tabula.Fs.{Exec, Io, World, pure, ◌>>=◌, ◌>>◌}
use via_tabula.Bloom.Arith.{Floats}
use via_tabula.Fs.{open_append, contents, same_path, write_all, join}
use via_tabula.Wal.{
  open_wal, append, replay, replay_all, replay_bytes, encode, body, u32_bytes, crc32, decode,
  decode_body, decode_put, decode_delete, u32_at, check_sum,
}
use via_tabula.Memtable
use via_tabula.Memtable.{size_bytes}
use via_tabula.Lsm.{
  Lsm, LsmError, open_lsm, get, set, delete, discover_levels, discover_files, level_of, is_utf8,
  ends_with, apply_all, apply_entry, sort, flush_if_full, find_on_disk, find_in_levels, find_in,
}
use via_tabula.Units.Fixtures.{passes, same_option}
use via_tabula.Tests.Tables.{hundredths}

abbrev dir : Bytes
dir = b'd' ∷ []

abbrev hello : Bytes
hello = b'h' ∷ b'e' ∷ b'l' ∷ b'l' ∷ b'o' ∷ []

abbrev world : Bytes
world = b'w' ∷ b'o' ∷ b'r' ∷ b'l' ∷ b'd' ∷ []

abbrev missing : Bytes
missing = b'm' ∷ b'i' ∷ b's' ∷ b's' ∷ b'i' ∷ b'n' ∷ b'g' ∷ []

-- A test on an engine that was just opened: what it says, and the disk that it leaves.
opened : Exec (Lsm × World) LsmError Bool → Io LsmError Bool
opened test = open_lsm dir >>= λ lsm w. let (r, e) = test (lsm, w) in (r, e.1)

set_then_get_returns_the_value : Floats → Io LsmError Bool
unfolding opened
set_then_get_returns_the_value fl = opened (do
  set fl hello world
  there ← get hello
  not_there ← get missing
  pure (same_option there (some world) && same_option not_there none))

delete_hides_the_key_even_before_any_flush : Floats → Io LsmError Bool
unfolding opened
delete_hides_the_key_even_before_any_flush fl =
    opened
      (do set fl hello world; delete fl hello; value ← get hello; pure (same_option value none))

open_replays_the_wal_after_a_restart : Floats → Io LsmError Bool
unfolding opened
open_replays_the_wal_after_a_restart fl = do
  opened (do set fl hello world; pure true)
  opened (do value ← get hello; pure (same_option value (some world)))

set_then_get_returns_the_value_lem : passes (set_then_get_returns_the_value hundredths) ≡ true
unfolding set_then_get_returns_the_value passes open_lsm open_wal open_append replay replay_all
    replay_bytes discover_levels discover_files level_of is_utf8 ends_with apply_all apply_entry
    sort join Fs.attempt contents Fs.put Fs.read same_path cmp append encode body u32_bytes crc32
    decode decode_body decode_put decode_delete u32_at check_sum slice from_le_bytes to_le_bytes
    write_all flush_if_full size_bytes Memtable.set Memtable.get Map.insert Map.get set get
    hide_tombstone is_tombstone same_option find_on_disk find_in_levels find_in
set_then_get_returns_the_value_lem = refl

delete_hides_the_key_even_before_any_flush_lem :
    passes (delete_hides_the_key_even_before_any_flush hundredths) ≡ true
unfolding delete_hides_the_key_even_before_any_flush passes open_lsm open_wal open_append replay
    replay_all replay_bytes discover_levels discover_files level_of is_utf8 ends_with apply_all
    apply_entry sort join Fs.attempt contents Fs.put Fs.read same_path cmp append encode body
    u32_bytes crc32 decode decode_body decode_put decode_delete u32_at check_sum slice from_le_bytes
    to_le_bytes write_all flush_if_full size_bytes Memtable.set Memtable.get Map.insert Map.get set
    get hide_tombstone is_tombstone same_option delete Memtable.delete
delete_hides_the_key_even_before_any_flush_lem = refl

open_replays_the_wal_after_a_restart_lem :
    passes (open_replays_the_wal_after_a_restart hundredths) ≡ true
unfolding open_replays_the_wal_after_a_restart passes open_lsm open_wal open_append replay
    replay_all replay_bytes discover_levels discover_files level_of is_utf8 ends_with apply_all
    apply_entry sort join Fs.attempt contents Fs.put Fs.read same_path cmp append encode body
    u32_bytes crc32 decode decode_body decode_put decode_delete u32_at check_sum slice from_le_bytes
    to_le_bytes write_all flush_if_full size_bytes Memtable.set Memtable.get Map.insert Map.get set
    get hide_tombstone is_tombstone same_option
open_replays_the_wal_after_a_restart_lem = refl
