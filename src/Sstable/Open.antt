-- ===== src/Sstable/Open.antt =====
-- `open` reads back the sections of a file that has the layout.
use via_tabula.Base.{
  ℕ, zero, suc, ◌+◌, ◌-◌, ◌%◌, ◌^◌, ◌<◌, ◌≤◌, ◌≡◌, refl, ◌∙◌, sym, ap, [], ◌∷◌, ◌++◌, length,
  length-append, append_assoc, append-nil, drop, drop_append, drop_in, slice, slice_in, All, ok,
  arith,
}
use via_tabula.Base.Bytes.{
  Bytes, to_le_bytes, from_le_bytes, length-to_le_bytes, from_le_bytes-to_le_bytes,
}
use via_tabula.Bloom.{BloomFilter, to_bytes, from_bytes}
use via_tabula.Bloom.Serial.{from_bytes-to_bytes}
use via_tabula.Sstable.Writer.{SsTableError, Index, index_len}
use via_tabula.Sstable.Reader.{read_exact, parse_index, open_bytes}
use via_tabula.Sstable.Layout.{index_bytes, footer, image, length-index_bytes, read_exact-append}

abbrev pub FitsIndex : Bytes × ℕ → Type 0
FitsIndex (key, offset) = (length key < 2 ^ 32) × (offset < 2 ^ 64)

-- A number that was written as a word reads back from where it stands.
word_in :
    (w a b n : ℕ) (front back whole : Bytes)
    → whole ≡ front ++ (to_le_bytes w n ++ back)
    → a ≡ length front
    → b ≡ a + w
    → n < 256 ^ w
    → from_le_bytes (slice a b whole) ≡ n
word_in w a b n front back whole e ha hb hn =
    rw
      (slice_in a b front (to_le_bytes w n) back whole e ha (omega (arith, length-to_le_bytes w n)))
      (from_le_bytes-to_le_bytes w n hn)

parse_index_step :
    (fuel pos n offset : ℕ) (bytes key : Bytes) (index : Index)
    → from_le_bytes (slice pos (pos + 4) bytes) ≡ n
    → slice (pos + 4) (pos + 4 + n) bytes ≡ key
    → from_le_bytes (slice (pos + 4 + n) (pos + 4 + n + 8) bytes) ≡ offset
    → pos + 4 + n + 8 ≤ length bytes
    → parse_index (suc fuel) bytes pos index
      ≡ parse_index fuel bytes (pos + 4 + n + 8) (index ++ ((key, offset) ∷ []))
unfolding parse_index
parse_index_step fuel pos n offset bytes key index en ek eo h = ground arith

parse_index-index_bytes :
    (rest : Index) (fuel pos : ℕ) (bytes front : Bytes) (index : Index)
    → All FitsIndex rest
    → bytes ≡ front ++ index_bytes rest
    → pos ≡ length front
    → length (index_bytes rest) < fuel
    → parse_index fuel bytes pos index ≡ ok (index ++ rest)
unfolding parse_index index_bytes
parse_index-index_bytes rest zero pos bytes front index fits e hp h = absurd (omega arith)
parse_index-index_bytes [] (suc fuel) pos bytes front index fits e hp h =
    ground (arith, append-nil index, append-nil front)
parse_index-index_bytes ((key, offset) ∷ rest) (suc fuel) pos bytes front index fits e hp h =
    let n = length key in
    let k = to_le_bytes 4 (n % 2 ^ 32) in
    let o = to_le_bytes 8 offset in
    let later = index_bytes rest in
    let lk = length-to_le_bytes 4 (n % 2 ^ 32) in
    let lo = length-to_le_bytes 8 offset in
    let upto_key = length-append front k in
    let upto_offset = length-append front (k ++ key) in
    let upto_rest = length-append front (k ++ (key ++ o)) in
    let inner = length-append k key in
    let inner' = length-append k (key ++ o) in
    let inner'' = length-append key o in
    let own = length-append k (key ++ (o ++ later)) in
    let own' = length-append key (o ++ later) in
    let own'' = length-append o later in
    parse_index_step fuel pos n offset bytes key index
      (word_in 4 pos (pos + 4) (n % 2 ^ 32) front (key ++ (o ++ later)) bytes e hp refl
          (omega arith)
        ∙ omega (arith, fits.0.0))
      (slice_in (pos + 4) (pos + 4 + n) (front ++ k) key (o ++ later) bytes (e ∙ simp append_assoc)
        (omega arith) refl)
      (word_in 8 (pos + 4 + n) (pos + 4 + n + 8) offset (front ++ (k ++ key)) later bytes
        (e ∙ simp append_assoc) (omega arith) refl fits.0.1)
      (omega (arith, ap length e, length-append front (k ++ (key ++ (o ++ later)))))
    ∙ parse_index-index_bytes rest fuel (pos + 4 + n + 8) bytes (front ++ (k ++ (key ++ o)))
        (index ++ ((key, offset) ∷ [])) fits.1 (e ∙ simp append_assoc) (omega arith) (omega arith)
    ∙ ap ok (append_assoc index ((key, offset) ∷ []) rest)

open_bytes_ok :
    (file filter_bytes index_bytes' : Bytes) (filter : BloomFilter) (index : Index)
    (filter_offset filter_len index_offset index_len' : ℕ) (rest rest' : Bytes)
    → 32 ≤ length file
    → from_le_bytes (slice 0 8 (drop (length file - 32) file)) ≡ filter_offset
    → from_le_bytes (slice 8 16 (drop (length file - 32) file)) ≡ filter_len
    → from_le_bytes (slice 16 24 (drop (length file - 32) file)) ≡ index_offset
    → from_le_bytes (slice 24 32 (drop (length file - 32) file)) ≡ index_len'
    → read_exact filter_len (drop filter_offset file) ≡ ok (filter_bytes, rest)
    → from_bytes {E = SsTableError} filter_bytes ≡ ok filter
    → read_exact index_len' (drop index_offset file) ≡ ok (index_bytes', rest')
    → parse_index (suc (length index_bytes')) index_bytes' 0 [] ≡ ok index
    → open_bytes file
      ≡ ok (record { file = file; index = index; data_end = filter_offset; filter = filter })
unfolding open_bytes
open_bytes_ok file filter_bytes index_bytes' filter index fo fl io' il rest rest' h e1 e2 e3 e4 e5
      e6 e7 e8 =
    rw (e1, e2, e3, e4, e5) (rw e6 (rw e7 (rw e8 (ground arith))))

-- The four words of a footer.
footer_words :
    (a b c d : ℕ)
    → a < 2 ^ 64
    → b < 2 ^ 64
    → c < 2 ^ 64
    → d < 2 ^ 64
    → (from_le_bytes (slice 0 8 (footer a b c d)) ≡ a)
      × (from_le_bytes (slice 8 16 (footer a b c d)) ≡ b)
      × (from_le_bytes (slice 16 24 (footer a b c d)) ≡ c)
      × (from_le_bytes (slice 24 32 (footer a b c d)) ≡ d)
      × (length (footer a b c d) ≡ 32)
unfolding footer
footer_words a b c d ha hb hc hd =
    let A = to_le_bytes 8 a in
    let B = to_le_bytes 8 b in
    let C = to_le_bytes 8 c in
    let D = to_le_bytes 8 d in
    let la = length-to_le_bytes 8 a in
    let lb = length-to_le_bytes 8 b in
    let lc = length-to_le_bytes 8 c in
    let ld = length-to_le_bytes 8 d in
    let whole = A ++ (B ++ (C ++ D)) in
    let ab = length-append A B in
    let bc = length-append B C in
    let abc = length-append A (B ++ C) in
    (
      word_in 8 0 8 a [] (B ++ (C ++ D)) whole refl refl refl ha,
      word_in 8 8 16 b A (C ++ D) whole refl (omega arith) refl hb,
      word_in 8 16 24 c (A ++ B) D whole (sym (append_assoc A B (C ++ D))) (omega arith) refl hc,
      word_in 8 24 32 d (A ++ (B ++ C)) [] whole (simp (append_assoc, append-nil)) (omega arith)
          refl hd,
      omega (arith, length-append A (B ++ (C ++ D)), length-append B (C ++ D), length-append C D),
    )

-- What a file must keep to for its numbers to fit the words that store them.
pub record FitsFile (body : Bytes) (filter : BloomFilter) (index : Index) : Type 0 where
  pub small_k : filter.k < 2 ^ 64
  pub small_m : filter.m < 2 ^ 64
  pub small_index : All FitsIndex index
  pub small_file : length (image body filter index) < 2 ^ 64

-- Opening a file that has the layout, and whose numbers fit their words, gives its index and its filter, and where its data ends.
pub open_bytes-image :
    (body : Bytes) (filter : BloomFilter) (index : Index)
    → FitsFile body filter index
    → open_bytes (image body filter index)
      ≡ ok (record {
        file = image body filter index;
        index = index;
        data_end = length body;
        filter = filter;
      })
unfolding image
open_bytes-image body filter index fits =
    let fb = to_bytes filter in
    let ib = index_bytes index in
    let at = length body + length fb in
    let foot = footer (length body) (length fb) at (index_len index) in
    let file = body ++ (fb ++ (ib ++ foot)) in
    let l1 = length-append body (fb ++ (ib ++ foot)) in
    let l2 = length-append fb (ib ++ foot) in
    let l3 = length-append ib foot in
    let li = length-index_bytes index in
    let small = fits.small_file in
    let (a, b, c, d, l) =
      footer_words (length body) (length fb) at (index_len index) (omega arith) (omega arith)
        (omega arith) (omega arith) in
    let front = body ++ (fb ++ ib) in
    let l4 = length-append body (fb ++ ib) in
    let l5 = length-append fb ib in
    let foot_at : drop (length file - 32) file ≡ foot =
      drop_in (length file - 32) front foot file (simp append_assoc) (omega arith) in
    let ib_at : drop at file ≡ ib ++ foot =
      drop_in at (body ++ fb) (ib ++ foot) file (simp append_assoc)
        (omega (arith, length-append body fb)) in
    open_bytes_ok file fb ib filter index (length body) (length fb) at (index_len index)
      (ib ++ foot) foot (omega arith) (rw foot_at a) (rw foot_at b) (rw foot_at c) (rw foot_at d)
      (rw (drop_append (length body) body (fb ++ (ib ++ foot)) refl)
        (read_exact-append (length fb) fb (ib ++ foot) refl))
      (from_bytes-to_bytes filter fits.small_k fits.small_m)
      (rw ib_at (read_exact-append (index_len index) ib foot (omega arith)))
      (parse_index-index_bytes index (suc (length ib)) 0 ib [] [] fits.small_index refl refl
        (omega arith))
