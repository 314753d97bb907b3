-- ===== src/Sstable/Layout.antt =====
-- The layout of an SSTable file (the comment at the head of sstable/writer.rs), section by section.
use via_tabula.Base.{
  ℕ, ◌+◌, ◌%◌, ◌^◌, ◌<◌, ◌≡◌, refl, ◌∙◌, sym, Bool, false, ◌||◌, [], ◌∷◌, ◌++◌, if◌then◌else◌, leb,
  length, length-append, append_assoc, take_append, drop_append, ok, arith,
}
use via_tabula.Base.Bytes.{
  Bytes, to_le_bytes, from_le_bytes, length-to_le_bytes, from_le_bytes-to_le_bytes,
}
use via_tabula.Map.{Entries}
use via_tabula.Bloom.{BloomFilter, to_bytes}
use via_tabula.Sstable.Writer.{Index, record_bytes, index_len}
use via_tabula.Sstable.Reader.{read_exact, read_record}

-- Both parts of a record fit its length fields.
abbrev pub FitsRecord : Bytes × Bytes → Type 0
FitsRecord (key, value) = (length key < 2 ^ 32) × (length value < 2 ^ 32)

-- The data section.
unfoldable pub records : Entries → Bytes
records [] = []
records ((key, value) ∷ rest) = record_bytes key value ++ records rest

-- The sparse index of the records from `offset` on, where `since` bytes follow the last entry, and
-- `fresh` says that there is none.
unfoldable pub sparse_index : ℕ → ℕ → Bool → Entries → Index
sparse_index offset since fresh [] = []
sparse_index offset since fresh ((key, value) ∷ rest) =
    let size = length (record_bytes key value) in
    let mark = fresh || leb 4096 since in
    let later = sparse_index (offset + size) ((if mark then 0 else since) + size) false rest in
    if mark then (key, offset) ∷ later else later

-- The index block.
unfoldable pub index_bytes : Index → Bytes
index_bytes [] = []
index_bytes ((key, offset) ∷ rest) =
    to_le_bytes 4 (length key % 2 ^ 32) ++ (key ++ (to_le_bytes 8 offset ++ index_bytes rest))

unfoldable pub footer : ℕ → ℕ → ℕ → ℕ → Bytes
footer filter_offset filter_len index_offset index_len' =
    to_le_bytes 8 filter_offset
    ++ (to_le_bytes 8 filter_len ++ (to_le_bytes 8 index_offset ++ to_le_bytes 8 index_len'))

-- A whole file, from its data section, its filter and its index.
unfoldable pub image : Bytes → BloomFilter → Index → Bytes
image body filter index =
    let filter_bytes = to_bytes filter in
    body
    ++ (filter_bytes
        ++ (index_bytes index
            ++ footer (length body) (length filter_bytes) (length body + length filter_bytes)
                (index_len index)))

pub length-record_bytes :
    (key value : Bytes) → length (record_bytes key value) ≡ 4 + length key + 4 + length value
unfolding record_bytes
length-record_bytes key value =
    let k = to_le_bytes 4 (length key % 2 ^ 32) in
    let v = to_le_bytes 4 (length value % 2 ^ 32) in
    omega (
      arith,
      length-append k (key ++ (v ++ value)),
      length-append key (v ++ value),
      length-append v value,
      length-to_le_bytes 4 (length key % 2 ^ 32),
      length-to_le_bytes 4 (length value % 2 ^ 32),
    )

pub length-index_bytes : (index : Index) → length (index_bytes index) ≡ index_len index
unfolding index_bytes index_len
length-index_bytes [] = refl
length-index_bytes ((key, offset) ∷ rest) =
    let k = to_le_bytes 4 (length key % 2 ^ 32) in
    let o = to_le_bytes 8 offset in
    omega (
      arith,
      length-append k (key ++ (o ++ index_bytes rest)),
      length-append key (o ++ index_bytes rest),
      length-append o (index_bytes rest),
      length-to_le_bytes 4 (length key % 2 ^ 32),
      length-to_le_bytes 8 offset,
      length-index_bytes rest,
    )

pub read_exact-append :
    (n : ℕ) (front back : Bytes)
    → n ≡ length front
    → read_exact n (front ++ back) ≡ ok (front, back)
unfolding read_exact
read_exact-append n front back h =
    rw (take_append n front back h, drop_append n front back h)
      (ground (arith, length-append front back))

pub read_length : (n : ℕ) → n < 2 ^ 32 → from_le_bytes (to_le_bytes 4 (n % 2 ^ 32)) ≡ n
read_length n h = from_le_bytes-to_le_bytes 4 (n % 2 ^ 32) (omega arith) ∙ omega arith

-- A record reads back from the front of its bytes, with what follows it.
pub read_record-record_bytes :
    (key value rest : Bytes)
    → FitsRecord (key, value)
    → read_record (record_bytes key value ++ rest) ≡ ok (key, value, rest)
unfolding read_record record_bytes
read_record-record_bytes key value rest fits =
    let k = to_le_bytes 4 (length key % 2 ^ 32) in
    let v = to_le_bytes 4 (length value % 2 ^ 32) in
    simp (
      append_assoc,
      read_exact-append 4 k (key ++ (v ++ (value ++ rest)))
          (sym (length-to_le_bytes 4 (length key % 2 ^ 32))),
      read_length (length key) fits.0,
      read_exact-append (length key) key (v ++ (value ++ rest)) refl,
      read_exact-append 4 v (value ++ rest) (sym (length-to_le_bytes 4 (length value % 2 ^ 32))),
      read_length (length value) fits.1,
      read_exact-append (length value) value rest refl,
    )
