-- ===== src/Lsm/Engine.antt =====
-- `Lsm` and its methods, each run to its end by one thread.
use via_tabula.Base.{ℕ, ◌*◌, false, Option, none, some, List, [], ◌∷◌, if◌then◌else◌, leb, ok}
use via_tabula.Base.Bytes.{Bytes}
use mathlib.Core.List.{reverse}
use via_tabula.Types.{hide_tombstone}
use via_tabula.Fs.{FilePath, World, Exec, Io, pure, lift, convert, ◌>>=◌, ◌>>◌, join, now}
use via_tabula.Bloom.Arith.{Floats}
use via_tabula.Wal.{Wal, WalEntry, WalError, append, truncate, put}
use via_tabula.Sstable.Writer.{SsTableError}
use via_tabula.Sstable.Reader.{open_table, get_raw}
use via_tabula.Memtable
use via_tabula.Memtable.{MemTable, size_bytes, flush}
use via_tabula.Levels.{LevelManager, add_l0_file, table_name}

pub data LsmError : Type 0 where
  io_failed : LsmError

abbrev pub from_wal : WalError → LsmError
from_wal e = io_failed

abbrev pub from_sstable : SsTableError → LsmError
from_sstable e = io_failed

-- The fields behind the locks, with the folder and the threshold.
pub record Lsm : Type 0 where
  pub dir : Bytes
  pub mem : MemTable
  pub wal : Wal
  pub levels : LevelManager
  pub flush_threshold : ℕ

abbrev pub default_flush_threshold : ℕ
default_flush_threshold = 4 * 1024 * 1024

-- The engine together with the files.
abbrev pub Engine : Type 0
Engine = Lsm × World

-- A call that leaves the engine's fields as they are.
abbrev pub outside {ℓ κ} : {E : Type ℓ} {A : Type κ} → Io E A → Exec Engine E A
outside m (l, w) = let (r, w') = m w in (r, (l, w'))

abbrev pub this : Exec Engine LsmError Lsm
this (l, w) = (ok l, (l, w))

-- Assignments to the fields behind the locks.
abbrev pub assign_mem : MemTable → Exec Engine LsmError (Unit {0})
assign_mem mem (l, w) = (ok tt, (record l { mem = mem }, w))

abbrev pub assign_levels : LevelManager → Exec Engine LsmError (Unit {0})
assign_levels levels (l, w) = (ok tt, (record l { levels = levels }, w))

unfoldable pub next_sstable_path : Exec Engine LsmError FilePath
next_sstable_path = do
  l ← this
  unique_suffix ← outside now
  pure (join l.dir (table_name b'0' unique_suffix))

-- `flush_memtable` from the swap on: an empty MemTable takes the place of the full one before that is
-- written.
unfoldable pub flush_to : Floats → FilePath → Exec Engine LsmError (Unit {0})
flush_to fl path = do
  l ← this
  let old_mem = l.mem
  assign_mem Memtable.empty
  convert from_sstable (outside (flush fl old_mem path))
  convert from_wal (outside (truncate l.wal))
  l ← this
  assign_levels (add_l0_file l.levels path)

unfoldable pub flush_memtable : Floats → Exec Engine LsmError (Unit {0})
flush_memtable fl = do path ← next_sstable_path; flush_to fl path

-- What `set` and `delete` do after the change of the MemTable.
unfoldable pub flush_if_full : Floats → Exec Engine LsmError (Unit {0})
flush_if_full fl = do
  l ← this
  if leb l.flush_threshold (size_bytes l.mem) then flush_memtable fl else pure tt

unfoldable pub set : Floats → Bytes → Bytes → Exec Engine LsmError (Unit {0})
set fl key value = do
  l ← this
  convert from_wal (outside (append l.wal (put key value) false))
  assign_mem (Memtable.set l.mem key value)
  flush_if_full fl

unfoldable pub delete : Floats → Bytes → Exec Engine LsmError (Unit {0})
delete fl key = do
  l ← this
  convert from_wal (outside (append l.wal (WalEntry.delete key) false))
  assign_mem (Memtable.delete l.mem key)
  flush_if_full fl

-- The loop over the files of a level: the first file that has a record of the key answers.
unfoldable pub find_in : List FilePath → Bytes → Io SsTableError (Option Bytes)
find_in [] key = pure none
find_in (path ∷ paths) key = do
  reader ← open_table path
  value ← lift (get_raw reader key)
  elim value [ some v ↦ pure (some v) | none ↦ find_in paths key ]

-- The loop over L1 and above.
unfoldable pub find_in_levels : List (List FilePath) → Bytes → Io SsTableError (Option Bytes)
find_in_levels [] key = pure none
find_in_levels (level ∷ levels) key = do
  value ← find_in level key
  elim value [ some v ↦ pure (some v) | none ↦ find_in_levels levels key ]

-- L0 from its last file to its first, then the other levels.
unfoldable pub find_on_disk : List (List FilePath) → Bytes → Io SsTableError (Option Bytes)
find_on_disk [] key = pure none
find_on_disk (l0 ∷ levels) key = do
  value ← find_in (reverse l0) key
  elim value [ some v ↦ pure (some v) | none ↦ find_in_levels levels key ]

unfoldable pub get : Bytes → Exec Engine LsmError (Option Bytes)
get key = do
  l ← this
  elim (Memtable.get l.mem key) [
    | some value ↦ pure (hide_tombstone (some value))
    | none ↦ do
      value ← convert from_sstable (outside (find_on_disk l.levels.levels key))
      pure (hide_tombstone value)
  ]
