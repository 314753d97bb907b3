-- ===== src/Memtable.antt =====
-- src/memtable.rs: the MemTable.
pub mod Table
pub mod Flush
pub mod Bounds
use via_tabula.Base.{
  ℕ, ◌+◌, Bool, true, false, Option, none, some, List, [], ◌∷◌, if◌then◌else◌, length, Outcome, ok,
  err, panic,
}
use via_tabula.Base.Bytes.{Bytes}
use via_tabula.Base.Order.{ltb}
use via_tabula.Types.{tombstone, is_tombstone}
use via_tabula.Map
use via_tabula.Map.{Entries}
use via_tabula.Fs.{FilePath, Io, pure, ◌>>=◌, ◌>>◌}
use via_tabula.Bloom.Arith.{Floats}
use via_tabula.Sstable.Writer.{SsTableError, SsTableWriter, new_writer, add, finish}

-- The field `data`
pub record MemTable : Type 0 where
  pub entries : Entries

abbrev pub empty : MemTable
empty = record { entries = [] }

unfoldable pub get : MemTable → Bytes → Option Bytes
get t key = Map.get t.entries key

unfoldable pub set : MemTable → Bytes → Bytes → MemTable
set t key value = record { entries = Map.insert key value t.entries }

unfoldable pub delete : MemTable → Bytes → MemTable
delete t key = record { entries = Map.insert key tombstone t.entries }

sum_bytes : Entries → ℕ
sum_bytes [] = 0
sum_bytes ((k, v) ∷ rest) = length k + length v + sum_bytes rest

unfoldable pub size_bytes : MemTable → ℕ
unfolding sum_bytes
size_bytes t = sum_bytes t.entries

unfoldable pub without_tombstones : Entries → Entries
without_tombstones [] = []
without_tombstones ((k, v) ∷ rest) =
    let live = without_tombstones rest in if is_tombstone v then live else (k, v) ∷ live

-- `BTreeMap::range` panics where the range starts above its end.
unfoldable pub scan {ℓ} : {E : Type ℓ} → MemTable → Bytes → Bytes → Outcome E Entries
unfolding without_tombstones
scan t start end =
    if ltb end start
    then panic
    else ok (without_tombstones (Map.take_below end (Map.skip_below start t.entries)))

-- `IntoIterator for &MemTable`: all records in key order, tombstones included.
abbrev pub into_iter : MemTable → Entries
into_iter t = t.entries

-- The loop of `flush`, over the entries in key order.
unfoldable pub add_all : SsTableWriter → Entries → Io SsTableError SsTableWriter
add_all w [] = pure w
add_all w ((key, value) ∷ rest) = do w' ← add w key value; add_all w' rest

unfoldable pub flush : Floats → MemTable → FilePath → Io SsTableError FilePath
flush fl t path = do
  w ← new_writer fl path (length t.entries)
  w ← add_all w (into_iter t)
  finish w
  pure path
