-- ===== src/Sstable/Lookup.antt =====
-- `get_raw` and `iter` on a file that holds a sorted table.
use via_tabula.Base.{
  ℕ, suc, ◌-◌, ◌≡◌, refl, ◌∙◌, sym, ap, true, Option, none, some, Option-cases, [], ◌∷◌, ◌++◌,
  length, length-append, append_assoc, drop, drop_in, All, ok, arith, inl, inr,
}
use via_tabula.Base.Bytes.{Bytes}
use via_tabula.Base.Order.{eq_of_cmp}
use via_tabula.Map
use via_tabula.Map.{Entries, IsSorted}
use via_tabula.Map.Lookup.{get-append}
use via_tabula.Bloom.{BloomFilter, IsFilter, may_contain}
use via_tabula.Bloom.Insert.{may_contain_exact}
use via_tabula.Sstable.Writer.{SsTableError, record_bytes}
use via_tabula.Sstable.Reader.{SsTableReader, scan_from, look_up, get_raw, iter, scan}
use via_tabula.Compaction.{collect}
use via_tabula.Sstable.Layout.{FitsRecord, records, sparse_index, image}
use via_tabula.Sstable.Scan.{scan-records, items-records}
use via_tabula.Sstable.Search.{Resumes, Leads, absent, resume, Leads-start_offset}

-- A table that a file can hold, with a filter that knows all of its keys.
pub record Holds (all : Entries) (filter : BloomFilter) : Type 0 where
  pub sorted : IsSorted all
  pub fits : All FitsRecord all
  pub valid : IsFilter filter
  pub known : All (λ e. may_contain {E = SsTableError} filter e.0 ≡ ok true) all

-- The reader of such a file.
abbrev pub reader_of : Entries → BloomFilter → SsTableReader
reader_of all filter =
    let index = sparse_index 0 0 true all in
    record {
      file = image (records all) filter index;
      index = index;
      data_end = length (records all);
      filter = filter;
    }

records-append : (xs ys : Entries) → records (xs ++ ys) ≡ records xs ++ records ys
unfolding records
records-append [] ys = refl
records-append ((k, v) ∷ xs) ys =
    rw (records-append xs ys) (sym (append_assoc (record_bytes k v) (records xs) (records ys)))

IsSorted-suffix : (xs ys : Entries) → IsSorted (xs ++ ys) → IsSorted ys
IsSorted-suffix [] ys s = s
IsSorted-suffix ((k, v) ∷ xs) ys s = IsSorted-suffix xs ys s.1

All-suffix {κ} : (P : Bytes × Bytes → Type κ) (xs ys : Entries) → All P (xs ++ ys) → All P ys
All-suffix P [] ys a = a
All-suffix P (x ∷ xs) ys a = All-suffix P xs ys a.1

-- A file begins with its data section.
image_front :
    (all : Entries) (filter : BloomFilter)
    → (tail : Bytes) × ((reader_of all filter).file ≡ records all ++ tail)
unfolding image
image_front all filter = (_, refl)

known_of_get :
    (all : Entries) (filter : BloomFilter) (key value : Bytes)
    → All (λ e. may_contain {E = SsTableError} filter e.0 ≡ ok true) all
    → Map.get all key ≡ some value
    → may_contain {E = SsTableError} filter key ≡ ok true
unfolding Map.get
known_of_get [] filter key value known e = cc
known_of_get ((k, v) ∷ all) filter key value known e =
    ground (arith, known_of_get all filter key value known.1, eq_of_cmp k key)

scan_resumed :
    (all : Entries) (key tail file : Bytes) (offset : ℕ)
    → IsSorted all
    → All FitsRecord all
    → file ≡ records all ++ tail
    → Resumes all key offset
    → scan
        (suc (length (records all) - offset))
        (length (records all))
        offset
        (drop offset file)
        key
      ≡ ok (Map.get all key)
scan_resumed all key tail file offset s fits e r =
    let front = records r.before in
    let back = records r.after in
    let whole : records all ≡ front ++ back =
      ap records r.split ∙ records-append r.before r.after in
    let size = length-append front back in
    let here : drop offset file ≡ back ++ tail =
      drop_in offset front (back ++ tail) file (e ∙ rw whole (append_assoc front back tail)) r.at in
    let value : Map.get all key ≡ Map.get r.after key = rw (r.split, get-append, r.skipped) in
    rw (here, value)
      (scan-records r.after (suc (length (records all) - offset)) offset (length (records all)) tail
        key (IsSorted-suffix r.before r.after (rw r.split at s))
        (All-suffix FitsRecord r.before r.after (rw r.split at fits))
        (omega (arith, ap length whole, r.at)) (omega (arith, ap length whole, r.at)))

scan_from-Leads :
    (all : Entries) (filter : BloomFilter) (key tail : Bytes)
    → IsSorted all
    → All FitsRecord all
    → (reader_of all filter).file ≡ records all ++ tail
    → (o : Option ℕ) → Leads all key o
    → scan_from (reader_of all filter) key o ≡ ok (Map.get all key)
unfolding scan_from
scan_from-Leads all filter key tail s fits front none (absent e) = ap ok (sym e)
scan_from-Leads all filter key tail s fits front (some offset) (resume r) =
    scan_resumed all key tail (reader_of all filter).file offset s fits front r

look_up-reader_of :
    (all : Entries) (filter : BloomFilter) (key : Bytes)
    → IsSorted all
    → All FitsRecord all
    → look_up (reader_of all filter) key ≡ ok (Map.get all key)
unfolding look_up
look_up-reader_of all filter key s fits =
    let (tail, front) = image_front all filter in
    let (o, e, leads) = Leads-start_offset all key s in
    rw e (scan_from-Leads all filter key tail s fits front o leads)

-- A point lookup in a file of a sorted table, whose lengths fit and whose filter knows all keys, agrees
-- with the table: it never errs and never panics, and neither the filter nor the sparse index makes
-- it miss a key. It returns the record as it is, a tombstone included.
pub get_raw-reader_of :
    (all : Entries) (filter : BloomFilter) (key : Bytes)
    → Holds all filter
    → get_raw (reader_of all filter) key ≡ ok (Map.get all key)
unfolding get_raw
get_raw-reader_of all filter key h = elim (Option-cases (Map.get all key)) [
  | inr (value, e) ↦
      rw (known_of_get all filter key value h.known e)
        (look_up-reader_of all filter key h.sorted h.fits)
  | inl e ↦
      rw (may_contain_exact filter key h.valid)
        (ground (arith, look_up-reader_of all filter key h.sorted h.fits))
]

-- A full iteration of a file of records whose lengths fit yields the records, tombstones included, in
-- the order of the file.
pub collect-reader_of :
    (all : Entries) (filter : BloomFilter)
    → All FitsRecord all
    → collect (iter (reader_of all filter)) ≡ all
unfolding collect iter
collect-reader_of all filter fits =
    let (tail, front) = image_front all filter in
    rw front (
      items-records all (suc (length (records all) - 0)) 0 (length (records all)) tail fits
        (omega arith) (omega arith))
