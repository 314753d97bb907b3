-- ===== src/Wal/Codec.antt =====
-- `decode` reads back what `encode` wrote, and refuses every shorter prefix of it.
use via_tabula.Base.{
  ℕ, ◌+◌, ◌%◌, ◌^◌, ◌<◌, ◌≤◌, ◌≡◌, refl, ◌∙◌, ap, [], ◌∷◌, ◌++◌, length, slice, ok, arith,
  length-append, slice_in, append_assoc,
}
use via_tabula.Base.Bytes.{Bytes, from_le_bytes, length-to_le_bytes, from_le_bytes-to_le_bytes}
use via_tabula.Wal.Entry.{WalEntry, put, delete, body, encode, u32_bytes}
use via_tabula.Wal.Entry.{crc32, decode, decode_body, decode_put, decode_delete, u32_at}

pub length-u32_bytes : (n : ℕ) → length (u32_bytes n) ≡ 4
unfolding u32_bytes
length-u32_bytes n = length-to_le_bytes 4 (n % 2 ^ 32)

-- Both parts of an entry fit the length fields.
abbrev pub Fits : WalEntry → Type 0
Fits (put key value) = (length key < 2 ^ 32) × (length value < 2 ^ 32)
Fits (delete key) = length key < 2 ^ 32

from_le_bytes-u32_bytes : (n : ℕ) → n < 2 ^ 32 → from_le_bytes (u32_bytes n) ≡ n
unfolding u32_bytes
from_le_bytes-u32_bytes n h = from_le_bytes-to_le_bytes 4 (n % 2 ^ 32) (omega arith) ∙ omega arith

-- A length or checksum field that stands behind `front`.
u32_at_in :
    (a n : ℕ) (front back code : Bytes)
    → code ≡ front ++ (u32_bytes n ++ back)
    → a ≡ length front
    → n < 2 ^ 32
    → u32_at a code ≡ n
unfolding u32_at
u32_at_in a n front back code e ha hn =
    rw (slice_in a (a + 4) front (u32_bytes n) back code e ha (omega (arith, length-u32_bytes n)))
      (from_le_bytes-u32_bytes n hn)

decode_put_ok :
    (code key value : Bytes) (n m : ℕ)
    → u32_at 1 code ≡ n
    → slice 5 (5 + n) code ≡ key
    → u32_at (5 + n) code ≡ m
    → slice (5 + n + 4) (5 + n + 4 + m) code ≡ value
    → 5 + n + 4 + m ≤ length code
    → decode_put code ≡ ok (put key value, 5 + n + 4 + m)
unfolding decode_put
decode_put_ok code key value n m en ek em ev h = ground arith

decode_delete_ok :
    (code key : Bytes) (n : ℕ)
    → u32_at 1 code ≡ n
    → slice 5 (5 + n) code ≡ key
    → 5 + n ≤ length code
    → decode_delete code ≡ ok (delete key, 5 + n)
unfolding decode_delete
decode_delete_ok code key n en ek h = ground arith

length-body-put :
    (key value : Bytes) → length (body (put key value)) ≡ 5 + length key + 4 + length value
unfolding body
length-body-put key value =
    let n = length key in
    let m = length value in
    omega (
      arith,
      length-append (u32_bytes n) (key ++ (u32_bytes m ++ value)),
      length-append key (u32_bytes m ++ value),
      length-append (u32_bytes m) value,
      length-u32_bytes n,
      length-u32_bytes m,
    )

length-body-delete : (key : Bytes) → length (body (delete key)) ≡ 5 + length key
unfolding body
length-body-delete key =
    omega (arith, length-append (u32_bytes (length key)) key, length-u32_bytes (length key))

-- The five parts of the body of a `Put`, and the four of a `Delete`, found at their places.
decode_put-body :
    (key value rest code : Bytes)
    → Fits (put key value)
    → code ≡ body (put key value) ++ rest
    → decode_put code ≡ ok (put key value, 5 + length key + 4 + length value)
unfolding body
decode_put-body key value rest code fits e =
    let n = length key in
    let m = length value in
    let k : Bytes = u32_bytes n in
    let v : Bytes = u32_bytes m in
    let lk = length-u32_bytes n in
    let lv = length-u32_bytes m in
    let tail : Bytes = value ++ rest in
    decode_put_ok code key value n m
      (u32_at_in 1 n (0 ∷ []) (key ++ (v ++ tail)) code (e ∙ simp append_assoc) refl fits.0)
      (slice_in 5 (5 + n) (0 ∷ k) key (v ++ tail) code (e ∙ simp append_assoc) (omega arith) refl)
      (u32_at_in (5 + n) m (0 ∷ (k ++ key)) tail code (e ∙ simp append_assoc)
        (omega (arith, length-append k key)) fits.1)
      (slice_in (5 + n + 4) (5 + n + 4 + m) (0 ∷ (k ++ (key ++ v))) value rest code
        (e ∙ simp append_assoc) (omega (arith, length-append k (key ++ v), length-append key v))
        refl)
      (omega
        (arith, ap length e, length-append (body (put key value)) rest, length-body-put key value))

decode_delete-body :
    (key rest code : Bytes)
    → Fits (delete key)
    → code ≡ body (delete key) ++ rest
    → decode_delete code ≡ ok (delete key, 5 + length key)
unfolding body
decode_delete-body key rest code fits e =
    let n = length key in
    let k : Bytes = u32_bytes n in
    let lk = length-u32_bytes n in
    decode_delete_ok code key n
      (u32_at_in 1 n (1 ∷ []) (key ++ rest) code (e ∙ simp append_assoc) refl fits)
      (slice_in 5 (5 + n) (1 ∷ k) key rest code (e ∙ simp append_assoc) (omega arith) refl)
      (omega (arith, ap length e, length-append (body (delete key)) rest, length-body-delete key))

pub decode_body-body :
    (entry : WalEntry) (rest : Bytes)
    → Fits entry
    → decode_body (body entry ++ rest) ≡ ok (entry, length (body entry))
decode_body-body (put key value) rest fits = rw (length-body-put key value) (
    unfold decode_body body in
    decode_put-body key value rest (body (put key value) ++ rest) fits refl)
decode_body-body (delete key) rest fits =
    rw (length-body-delete key)
      (unfold decode_body body in decode_delete-body key rest (body (delete key) ++ rest) fits refl)

crc32-lt : (bytes : Bytes) → crc32 bytes < 2 ^ 32
unfolding crc32
crc32-lt bytes = omega arith

decode_ok :
    (code sealed : Bytes) (entry : WalEntry) (n : ℕ)
    → decode_body code ≡ ok (entry, n)
    → slice 0 n code ≡ sealed
    → u32_at n code ≡ crc32 sealed
    → n + 4 ≤ length code
    → decode code ≡ ok (entry, n + 4)
unfolding decode
decode_ok code sealed entry n e es ec h = rw (e, es, ec) (ground arith)

pub length-encode : (entry : WalEntry) → length (encode entry) ≡ length (body entry) + 4
unfolding encode
length-encode entry = rw (length-append, length-u32_bytes (crc32 (body entry)))

-- Where the lengths of its key and value are below 2^32, an entry reads back from the front of its
-- encoding, whatever follows, with the number of bytes that it took.
pub decode-encode :
    (entry : WalEntry) (rest : Bytes)
    → Fits entry
    → decode (encode entry ++ rest) ≡ ok (entry, length (encode entry))
decode-encode entry rest fits = rw length-encode (
    unfold encode in
    let b = body entry in
    let c = u32_bytes (crc32 b) in
    let n = length b in
    rw append_assoc (
      decode_ok (b ++ (c ++ rest)) b entry n (decode_body-body entry (c ++ rest) fits)
        (slice_in 0 n [] b (c ++ rest) (b ++ (c ++ rest)) refl refl (omega arith))
        (u32_at_in n (crc32 b) b rest (b ++ (c ++ rest)) refl refl (crc32-lt b))
        (omega
          (arith, length-append b (c ++ rest), length-append c rest, length-u32_bytes (crc32 b)))))
