-- ===== src/Sstable/Writer.antt =====
-- src/sstable/writer.rs: `SsTableWriter`.
use via_tabula.Base.{
  ℕ, ◌+◌, ◌*◌, ◌%◌, ◌^◌, Bool, true, false, ◌||◌, List, [], ◌∷◌, ◌++◌, if◌then◌else◌, leb, length,
}
use via_tabula.Base.Bytes.{Bytes, to_le_bytes}
use via_tabula.Fs.{
  FilePath, with_extension, Io, pure, lift, or_err, ◌>>=◌, ◌>>◌, create, rename, BufWriter,
  write_buffered, flush_buffer,
}
use via_tabula.Bloom.{BloomFilter, new_filter, insert, to_bytes}
use via_tabula.Bloom.Arith.{Floats}

pub data SsTableError : Type 0 where
  io : SsTableError

-- A sparse index: keys with the offsets of their records.
abbrev pub Index : Type 0
Index = List (Bytes × ℕ)

pub record SsTableWriter : Type 0 where
  pub writer : BufWriter
  pub index : Index
  pub bytes_since_last_index : ℕ
  pub offset : ℕ
  pub filter : BloomFilter
  pub record_buf : Bytes
  pub final_path : FilePath
  pub tmp_path : FilePath

abbrev pub writer_buffer_capacity : ℕ
writer_buffer_capacity = 64 * 1024

-- `path.with_extension("tmp")`
abbrev pub tmp_of : FilePath → FilePath
tmp_of path = with_extension path (b't' ∷ b'm' ∷ b'p' ∷ [])

unfoldable pub new_writer : Floats → FilePath → ℕ → Io SsTableError SsTableWriter
new_writer fl path expected_keys = do
  or_err (create (tmp_of path)) io
  pure (record {
    writer = record { file = tmp_of path; buffer = []; capacity = writer_buffer_capacity };
    index = [];
    bytes_since_last_index = 0;
    offset = 0;
    filter = new_filter fl expected_keys fl.one_percent;
    record_buf = [];
    final_path = path;
    tmp_path = tmp_of path;
  })

-- The first `if` of `add`: the first record and each that follows 4096 bytes get an index entry.
abbrev pub is_empty : Index → Bool
is_empty [] = true
is_empty (e ∷ es) = false

unfoldable pub checkpoint : SsTableWriter → Bytes → SsTableWriter
checkpoint w key =
    if is_empty w.index || leb 4096 w.bytes_since_last_index
    then record w { index = w.index ++ ((key, w.offset) ∷ []); bytes_since_last_index = 0 }
    else w

-- What `add` collects in `record_buf`.
unfoldable pub record_bytes : Bytes → Bytes → Bytes
record_bytes key value =
    to_le_bytes 4 (length key % 2 ^ 32) ++ (key ++ (to_le_bytes 4 (length value % 2 ^ 32) ++ value))

unfoldable pub add : SsTableWriter → Bytes → Bytes → Io SsTableError SsTableWriter
add w key value = do
  let w' = checkpoint w key
  let buf = record_bytes key value
  writer ← or_err (write_buffered w'.writer buf) io
  filter ← lift (insert w'.filter key)
  pure (record w' {
    writer = writer;
    record_buf = buf;
    offset = w'.offset + length buf;
    bytes_since_last_index = w'.bytes_since_last_index + length buf;
    filter = filter;
  })

-- The loop of `finish` over the index.
unfoldable pub write_index : BufWriter → Index → Io SsTableError BufWriter
write_index bw [] = pure bw
write_index bw ((key, offset) ∷ rest) = do
  bw1 ← or_err (write_buffered bw (to_le_bytes 4 (length key % 2 ^ 32))) io
  bw2 ← or_err (write_buffered bw1 key) io
  bw3 ← or_err (write_buffered bw2 (to_le_bytes 8 offset)) io
  write_index bw3 rest

-- `.map(|(k, _)| 4 + k.len() + 8).sum()`
unfoldable pub index_len : Index → ℕ
index_len [] = 0
index_len ((key, offset) ∷ rest) = (4 + length key + 8) + index_len rest

unfoldable pub finish : SsTableWriter → Io SsTableError (Unit {0})
finish w = do
  let filter_offset = w.offset
  let filter_bytes = to_bytes w.filter
  bw ← or_err (write_buffered w.writer filter_bytes) io
  let filter_len = length filter_bytes
  let index_offset = filter_offset + filter_len
  bw ← write_index bw w.index
  bw ← or_err (write_buffered bw (to_le_bytes 8 filter_offset)) io
  bw ← or_err (write_buffered bw (to_le_bytes 8 filter_len)) io
  bw ← or_err (write_buffered bw (to_le_bytes 8 index_offset)) io
  bw ← or_err (write_buffered bw (to_le_bytes 8 (index_len w.index))) io
  or_err (flush_buffer bw) io
  or_err (rename w.tmp_path w.final_path) io
