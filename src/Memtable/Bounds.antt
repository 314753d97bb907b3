-- ===== src/Memtable/Bounds.antt =====
-- How `size_bytes` bounds the data section of the file that a MemTable makes.
use via_tabula.Base.{
  ℕ, ◌+◌, ◌*◌, ◌^◌, ◌<◌, ◌≤◌, ◌≡◌, refl, [], ◌∷◌, length, length-append, All, arith,
}
use via_tabula.Base.Bytes.{Bytes}
use via_tabula.Base.Order.{◌≺◌, cmp}
use via_tabula.Map
use via_tabula.Map.{Entries, Above, IsSorted}
use via_tabula.Map.Order.{insert-IsSorted}
use via_tabula.Sstable.Writer.{record_bytes}
use via_tabula.Sstable.Layout.{FitsRecord, records, length-record_bytes}
use via_tabula.Memtable.{MemTable, size_bytes, sum_bytes, set}
use via_tabula.Memtable.Table.{size_bytes-set}

not_empty_above : (low key : Bytes) → low ≺ key → 0 < length key
unfolding cmp
not_empty_above [] [] h = cc
not_empty_above (b ∷ low) [] h = cc
not_empty_above low (c ∷ key) h = omega arith

-- Only the first key of a sorted map can be empty.
few-Above : (low : Bytes) (m : Entries) → Above low m → length m ≤ sum_bytes m
unfolding sum_bytes
few-Above low [] a = omega arith
few-Above low ((k, v) ∷ m) a = omega (arith, not_empty_above low k a.0, few-Above low m a.1)

few : (m : Entries) → IsSorted m → length m ≤ 1 + sum_bytes m
unfolding sum_bytes
few [] s = omega arith
few ((k, v) ∷ m) s = omega (arith, few-Above k m s.0)

-- A record takes eight bytes more than its key and value.
length-records : (m : Entries) → length (records m) ≡ sum_bytes m + 8 * length m
unfolding records sum_bytes
length-records [] = refl
length-records ((k, v) ∷ m) =
    omega (
      arith,
      length-append (record_bytes k v) (records m),
      length-record_bytes k v,
      length-records m,
    )

-- The data section of the file that a MemTable with ascending keys makes takes at most nine times
-- the size that the flush threshold is compared with, and eight bytes more: each record has a header
-- of eight bytes, and at most one key is empty.
pub records-size_bytes :
    (t : MemTable) → IsSorted t.entries → length (records t.entries) ≤ 9 * size_bytes t + 8
unfolding size_bytes
records-size_bytes t s = omega (arith, length-records t.entries, few t.entries s)

insert-All :
    (key value : Bytes) (m : Entries)
    → FitsRecord (key, value)
    → All FitsRecord m
    → All FitsRecord (Map.insert key value m)
unfolding Map.insert
insert-All key value [] p a = (p, tt)
insert-All key value ((k, v) ∷ m) p a = ground (arith, insert-All key value m p a.1, a.0, a.1)

set-size_bytes :
    (t : MemTable) (key value : Bytes)
    → IsSorted t.entries
    → size_bytes (set t key value) ≤ size_bytes t + (length key + length value)
set-size_bytes t key value s = omega (arith, size_bytes-set t key value s)

-- A write of a record that fits leaves a table that a file can hold.
pub set-fits :
    (t : MemTable) (key value : Bytes) (n : ℕ)
    → IsSorted t.entries
    → All FitsRecord t.entries
    → FitsRecord (key, value)
    → size_bytes t < n
    → n ≤ 2 ^ 50
    → All FitsRecord (set t key value).entries
      × (length (records (set t key value).entries) < 2 ^ 62)
      × IsSorted (set t key value).entries
unfolding set
set-fits t key value n sorted fits new below bounded =
    let sorted' = insert-IsSorted key value t.entries sorted in
    let size = records-size_bytes (set t key value) sorted' in
    (
      insert-All key value t.entries new fits,
      omega (arith, new, below, bounded, size, set-size_bytes t key value sorted),
      sorted',
    )
