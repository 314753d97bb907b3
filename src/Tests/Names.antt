-- ===== src/Tests/Names.antt =====
-- The theorems on the names of tables at concrete names.
use via_tabula.Base.{◌+◌, ◌≡◌, refl, some, List, [], ◌∷◌, arith}
use via_tabula.Base.Bytes.{Bytes}
use via_tabula.Fs.{FilePath, Files, join}
use via_tabula.Levels.{table_name}
use via_tabula.Lsm.{Lsm, level_of, sort, wal_path, discover_levels}
use via_tabula.Lsm.Sorted.{Ascending}
use via_tabula.Lsm.Discovered.{level_at, tables_of, discover_levels-Ascending}
use via_tabula.Lsm.Flushed.{IsFresh}
use via_tabula.Lsm.Dated.{level_of-table_name, later-IsFresh, OldestFirst, sort-OldestFirst}
use via_tabula.Memtable
use mathlib.Core.List.{Perm}

level_of-table_name_example : level_of (table_name (b'0' + 1) 5) ≡ some 1
level_of-table_name_example = level_of-table_name 1 5 (omega arith)

abbrev folder : Bytes
folder = b'd' ∷ []

-- A table from 2023 and one from 2020.
abbrev tables : List FilePath
tables =
    join folder (table_name b'0' 1700000000000000000)
    ∷ join folder (table_name b'0' 1600000000000000000)
    ∷ []

sort-OldestFirst_example : Perm (sort tables) tables × OldestFirst (sort tables)
sort-OldestFirst_example = sort-OldestFirst folder b'0' tables (
  record { time = 1700000000000000000; name = refl; from = omega arith; to = omega arith },
  (record { time = 1600000000000000000; name = refl; from = omega arith; to = omega arith }, tt),
)

abbrev engine : Lsm
engine = record {
  dir = folder;
  mem = Memtable.empty;
  wal = record { file = wal_path folder };
  levels = record { levels = tables ∷ [] };
  flush_threshold = 9;
}

later-IsFresh_example : IsFresh (join folder (table_name b'0' 1800000000000000000)) engine
later-IsFresh_example = later-IsFresh engine 1800000000000000000 (
  (
    (b'0', 1700000000000000000, refl, omega arith),
    ((b'0', 1600000000000000000, refl, omega arith), tt),
  ),
  tt,
)

-- A folder with the log, the two tables, and a table of L1.
abbrev files : Files
files =
    (wal_path folder, [])
    ∷ (join folder (table_name b'0' 1700000000000000000), 1 ∷ [])
    ∷ (join folder (table_name b'1' 1500000000000000000), 2 ∷ [])
    ∷ (join folder (table_name b'0' 1600000000000000000), 3 ∷ [])
    ∷ []

discover_levels-Ascending_example :
    Perm (level_at 0 (discover_levels folder files).levels) (tables_of 0 folder files)
    × Ascending (level_at 0 (discover_levels folder files).levels)
discover_levels-Ascending_example = discover_levels-Ascending 0 folder files
