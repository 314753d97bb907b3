-- ===== src/Sstable/Scan.antt =====
-- The forward scan of `get_raw`, the iteration, and the sparse index, on a data section.
use via_tabula.Base.{
  ℕ, zero, suc, ◌+◌, ◌<◌, ◌≡◌, [], ◌∷◌, ◌++◌, length, length-append, append_assoc, All, ok, arith,
}
use via_tabula.Base.Bytes.{Bytes}
use via_tabula.Base.Order.{lt_of_gt}
use via_tabula.Map
use via_tabula.Map.{Entries, IsSorted, Above}
use via_tabula.Map.Lookup.{get_before}
use via_tabula.Sstable.Reader.{read_record, scan, next}
use via_tabula.Compaction.{items}
use via_tabula.Sstable.Layout.{FitsRecord, records, length-record_bytes, read_record-record_bytes}
use via_tabula.Sstable.Writer.{record_bytes}

length-records_cons :
    (key value : Bytes) (rest : Entries)
    → length (records ((key, value) ∷ rest))
      ≡ 4 + length key + 4 + length value + length (records rest)
unfolding records
length-records_cons key value rest =
    omega
      (arith, length-append (record_bytes key value) (records rest), length-record_bytes key value)

read_head :
    (key value : Bytes) (rest : Entries) (tail : Bytes)
    → FitsRecord (key, value)
    → read_record (records ((key, value) ∷ rest) ++ tail) ≡ ok (key, value, records rest ++ tail)
unfolding records
read_head key value rest tail fits =
    rw append_assoc (read_record-record_bytes key value (records rest ++ tail) fits)

-- A scan over records in key order finds the value of the key, or stops where the keys are larger
-- or the records end.
pub scan-records :
    (entries : Entries) (fuel pos data_end : ℕ) (tail key : Bytes)
    → IsSorted entries
    → All FitsRecord entries
    → pos + length (records entries) ≡ data_end
    → data_end < pos + fuel
    → scan fuel data_end pos (records entries ++ tail) key ≡ ok (Map.get entries key)
unfolding scan Map.get
scan-records entries zero pos data_end tail key s fits e h = absurd (omega arith)
scan-records [] (suc fuel) pos data_end tail key s fits e h = unfold records in ground arith
scan-records ((k, v) ∷ entries) (suc fuel) pos data_end tail key s fits e h = ground (
  arith,
  read_head k v entries tail fits.0,
  length-records_cons k v entries,
  scan-records entries fuel (pos + (4 + length k + 4 + length v)) data_end tail key s.1 fits.1,
  get_before k v key entries s,
  lt_of_gt k key,
)

pub items-records :
    (entries : Entries) (fuel pos data_end : ℕ) (tail : Bytes)
    → All FitsRecord entries
    → pos + length (records entries) ≡ data_end
    → data_end < pos + fuel
    → items fuel (record { rest = records entries ++ tail; pos = pos; data_end = data_end })
      ≡ entries
unfolding items next
items-records entries zero pos data_end tail fits e h = absurd (omega arith)
items-records [] (suc fuel) pos data_end tail fits e h = unfold records in ground arith
items-records ((k, v) ∷ entries) (suc fuel) pos data_end tail fits e h = ground (
  arith,
  read_head k v entries tail fits.0,
  length-records_cons k v entries,
  items-records entries fuel (pos + (4 + length k + 4 + length v)) data_end tail fits.1,
)
