-- ===== src/Sstable/Reader.antt =====
-- src/sstable/reader.rs: `SsTableReader` and `SsTableIter`. An open file is its contents: the name
-- may be removed or replaced while the file stays open, and an SSTable is never written to again.
use via_tabula.Base.{
  ℕ, zero, suc, ◌+◌, ◌-◌, true, false, Option, none, some, [], ◌∷◌, ◌++◌, Ordering, if◌then◌else◌,
  ltb, leb, length, take, drop, slice, get_elem?, Outcome, ok, err, panic, ◌>>=◌,
}
use via_tabula.Base.Bytes.{Bytes, from_le_bytes}
use via_tabula.Base.Order.{cmp}
use via_tabula.Types.{hide_tombstone}
use via_tabula.Fs.{FilePath, World, Io, IoError, read, or_err, lift}
use via_tabula.Fs
use via_tabula.Bloom.{BloomFilter, from_bytes, may_contain}
use via_tabula.Sstable.Writer.{SsTableError, io, Index}

pub record SsTableReader : Type 0 where
  pub file : Bytes
  pub index : Index
  pub data_end : ℕ
  pub filter : BloomFilter

-- `read_exact` of `n` bytes, with what is left to read behind them.
unfoldable pub read_exact : ℕ → Bytes → Outcome SsTableError (Bytes × Bytes)
read_exact n rest = if ltb (length rest) n then err io else ok (take n rest, drop n rest)

-- The loop of `open` over the index block; the slices panic where the block ends too early.
unfoldable pub parse_index : ℕ → Bytes → ℕ → Index → Outcome SsTableError Index
parse_index zero bytes pos index = panic
parse_index (suc fuel) bytes pos index =
    let key_len = from_le_bytes (slice pos (pos + 4) bytes) in
    let offset_at = pos + 4 + key_len in
    let key = slice (pos + 4) offset_at bytes in
    let offset = from_le_bytes (slice offset_at (offset_at + 8) bytes) in
    let later = parse_index fuel bytes (offset_at + 8) (index ++ ((key, offset) ∷ [])) in
    if leb (length bytes) pos
    then ok index
    else if ltb (length bytes) (pos + 4)
    then panic
    else if ltb (length bytes) (offset_at + 8)
    then panic
    else later

-- `open`, from the contents of the file on.
unfoldable pub open_bytes : Bytes → Outcome SsTableError SsTableReader
open_bytes file = if ltb (length file) 32 then err io else (do
  let footer = drop (length file - 32) file
  let filter_offset = from_le_bytes (slice 0 8 footer)
  let filter_len = from_le_bytes (slice 8 16 footer)
  let index_offset = from_le_bytes (slice 16 24 footer)
  let index_len = from_le_bytes (slice 24 32 footer)
  (filter_bytes, _) ← read_exact filter_len (drop filter_offset file)
  filter ← from_bytes filter_bytes
  (index_bytes, _) ← read_exact index_len (drop index_offset file)
  index ← parse_index (suc (length index_bytes)) index_bytes 0 []
  ok (record { file = file; index = index; data_end = filter_offset; filter = filter }))

unfoldable pub open_table : FilePath → Io SsTableError SsTableReader
open_table path = Fs.◌>>=◌ (or_err (read path) io) (λ file. lift (open_bytes file))

-- `slice::binary_search_by` on a slice in strict order of keys: where the key is, or where it would
-- be inserted.
pub data SearchResult : Type 0 where
  found : ℕ → SearchResult
  insertion_point : ℕ → SearchResult

abbrev pub later_by_one : SearchResult → SearchResult
later_by_one (found pos) = found (suc pos)
later_by_one (insertion_point pos) = insertion_point (suc pos)

unfoldable pub binary_search : Index → Bytes → SearchResult
binary_search [] key = insertion_point 0
binary_search ((k, offset) ∷ rest) key =
    let later = later_by_one (binary_search rest key) in
    elim (cmp k key) [
      | Ordering.lt ↦ later
      | Ordering.eq ↦ found 0
      | Ordering.gt ↦ insertion_point 0
    ]

-- `self.index[pos].1`
abbrev pub offset_at : Index → ℕ → Outcome SsTableError (Option ℕ)
offset_at index pos = elim (get_elem? index pos) [ none ↦ panic | some e ↦ ok (some e.1) ]

-- The `match search_result`: the offset to scan from, or the answer that the key is not there.
unfoldable pub start_offset : Index → Bytes → Outcome SsTableError (Option ℕ)
start_offset index key = elim (binary_search index key) [
  | found pos ↦ offset_at index pos
  | insertion_point zero ↦ ok none
  | insertion_point (suc pos) ↦ offset_at index pos
]

-- The four reads of a record, which `get_raw` and `SsTableIter::next` both make.
unfoldable pub read_record : Bytes → Outcome SsTableError (Bytes × Bytes × Bytes)
read_record rest = do
  (len_buf, rest) ← read_exact 4 rest
  (key, rest) ← read_exact (from_le_bytes len_buf) rest
  (len_buf, rest) ← read_exact 4 rest
  (val, rest) ← read_exact (from_le_bytes len_buf) rest
  ok (key, val, rest)

-- The loop of `get_raw`; every round reads eight bytes at least.
unfoldable pub scan : ℕ → ℕ → ℕ → Bytes → Bytes → Outcome SsTableError (Option Bytes)
scan zero data_end pos rest key = panic
scan (suc fuel) data_end pos rest key = elim (ltb pos data_end) [
  | false ↦ ok none
  | true ↦ read_record rest >>= λ (record_key, record_val, rest'). elim (cmp record_key key) [
    | Ordering.eq ↦ ok (some record_val)
    | Ordering.gt ↦ ok none
    | Ordering.lt ↦
        scan fuel data_end (pos + (4 + length record_key + 4 + length record_val)) rest' key
  ]
]

-- The `seek` to the offset and the scan from it.
unfoldable pub scan_from : SsTableReader → Bytes → Option ℕ → Outcome SsTableError (Option Bytes)
scan_from r key none = ok none
scan_from r key (some offset) =
    scan (suc (r.data_end - offset)) r.data_end offset (drop offset r.file) key

-- What follows the filter test in `get_raw`.
unfoldable pub look_up : SsTableReader → Bytes → Outcome SsTableError (Option Bytes)
look_up r key = start_offset r.index key >>= scan_from r key

unfoldable pub get_raw : SsTableReader → Bytes → Outcome SsTableError (Option Bytes)
get_raw r key = do maybe ← may_contain r.filter key; if maybe then look_up r key else ok none

unfoldable pub get_live : SsTableReader → Bytes → Outcome SsTableError (Option Bytes)
get_live r key = get_raw r key >>= λ value. ok (hide_tombstone value)

pub record SsTableIter : Type 0 where
  pub rest : Bytes
  pub pos : ℕ
  pub data_end : ℕ

unfoldable pub iter : SsTableReader → SsTableIter
iter r = record { rest = r.file; pos = 0; data_end = r.data_end }

-- `next`: a record that cannot be read ends the iteration.
unfoldable pub next : SsTableIter → Option ((Bytes × Bytes) × SsTableIter)
next it = if leb it.data_end it.pos then none else elim (read_record it.rest) [
  | ok (key, val, rest) ↦
      some ((key, val), record it { rest = rest; pos = it.pos + (4 + length key + 4 + length val) })
  | err _ ↦ none
  | panic ↦ none
]
