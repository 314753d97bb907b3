-- ===== src/Sstable/Size.antt =====
-- How large the sections of a file are, and what that means for the words that store the sizes.
use via_tabula.Base.{
  ℕ, ◌+◌, ◌*◌, ◌^◌, ◌<◌, ◌≤◌, ◌≡◌, Bool, true, false, ◌||◌, Bool-cases, [], ◌∷◌, ◌++◌, leb, length,
  length-append, All, arith, inl, inr,
}
use via_tabula.Base.Bytes.{Bytes, to_le_bytes, length-to_le_bytes}
use via_tabula.Map.{Entries}
use via_tabula.Bloom.{BloomFilter, IsFilter, to_bytes}
use via_tabula.Sstable.Writer.{record_bytes, index_len}
use via_tabula.Sstable.Layout.{
  FitsRecord, records, sparse_index, image, footer, index_bytes, length-record_bytes,
  length-index_bytes,
}
use via_tabula.Sstable.Open.{FitsIndex, FitsFile}

length-records :
    (key value : Bytes) (rest : Entries)
    → length (records ((key, value) ∷ rest))
      ≡ 4 + length key + 4 + length value + length (records rest)
unfolding records
length-records key value rest =
    omega
      (arith, length-append (record_bytes key value) (records rest), length-record_bytes key value)

-- The index block is at most twice as long as the data section.
index_len-sparse_index :
    (all : Entries) (offset since : ℕ) (fresh : Bool)
    → index_len (sparse_index offset since fresh all) ≤ 2 * length (records all)
unfolding sparse_index index_len
index_len-sparse_index [] offset since fresh = omega arith
index_len-sparse_index ((key, value) ∷ rest) offset since fresh =
    let size = length (record_bytes key value) in
    let mark = fresh || leb 4096 since in
    let own = length-records key value rest in
    elim (Bool-cases mark) [
      | inl e ↦
          rw e (omega (arith, own, index_len-sparse_index rest (offset + size) (0 + size) false))
      | inr e ↦
          rw e
            (omega (arith, own, index_len-sparse_index rest (offset + size) (since + size) false))
    ]

sparse_index-FitsIndex :
    (all : Entries) (offset since : ℕ) (fresh : Bool)
    → All FitsRecord all
    → offset + length (records all) < 2 ^ 64
    → All FitsIndex (sparse_index offset since fresh all)
unfolding sparse_index
sparse_index-FitsIndex [] offset since fresh fits h = tt
sparse_index-FitsIndex ((key, value) ∷ rest) offset since fresh fits h =
    let size = length (record_bytes key value) in
    let own = length-records key value rest in
    let of_size = length-record_bytes key value in
    let later : (s : ℕ) → All FitsIndex (sparse_index (offset + size) s false rest) =
      λ s. sparse_index-FitsIndex rest (offset + size) s false fits.1 (omega arith) in
    elim (Bool-cases (fresh || leb 4096 since)) [
      | inl e ↦ rw e ((fits.0.0, omega arith), later (0 + size))
      | inr e ↦ rw e (later (since + size))
    ]

length-to_bytes : (f : BloomFilter) → length (to_bytes f) ≡ 16 + length f.bits
unfolding to_bytes
length-to_bytes f = omega (
  arith,
  length-append (to_le_bytes 8 f.k) (to_le_bytes 8 f.m ++ f.bits),
  length-append (to_le_bytes 8 f.m) f.bits,
  length-to_le_bytes 8 f.k,
  length-to_le_bytes 8 f.m,
)

length-footer : (a b c d : ℕ) → length (footer a b c d) ≡ 32
unfolding footer
length-footer a b c d =
    let A = to_le_bytes 8 a in
    let B = to_le_bytes 8 b in
    let C = to_le_bytes 8 c in
    let D = to_le_bytes 8 d in
    omega (
      arith,
      length-append A (B ++ (C ++ D)),
      length-append B (C ++ D),
      length-append C D,
      length-to_le_bytes 8 a,
      length-to_le_bytes 8 b,
      length-to_le_bytes 8 c,
      length-to_le_bytes 8 d,
    )

-- The sizes of a table's file fit their words where the data section is not absurdly long.
pub image-FitsFile :
    (all : Entries) (f : BloomFilter)
    → IsFilter f
    → f.k < 2 ^ 64
    → f.m < 2 ^ 64
    → All FitsRecord all
    → length (records all) < 2 ^ 62
    → FitsFile (records all) f (sparse_index 0 0 true all)
unfolding image
image-FitsFile all f valid hk hm fits small =
    let idx = sparse_index 0 0 true all in
    let body = records all in
    let fb = to_bytes f in
    let foot = footer (length body) (length fb) (length body + length fb) (index_len idx) in
    record {
      small_k = hk;
      small_m = hm;
      small_index = sparse_index-FitsIndex all 0 0 true fits (omega arith);
      small_file = omega (
        arith,
        length-append body (fb ++ (index_bytes idx ++ foot)),
        length-append fb (index_bytes idx ++ foot),
        length-append (index_bytes idx) foot,
        length-footer (length body) (length fb) (length body + length fb) (index_len idx),
        length-to_bytes f,
        valid.sized,
        length-index_bytes idx,
        index_len-sparse_index all 0 0 true,
      );
    }
