-- ===== src/Wal/Entry.antt =====
-- `WalEntry`, `crc32`, `WalEntry::encode` and `WalEntry::decode`.
use via_tabula.Base.{
  ℕ, zero, suc, ◌+◌, ◌-◌, ◌/◌, ◌%◌, ◌^◌, bit_and, bit_xor, not, [], ◌∷◌, ◌++◌, if◌then◌else◌, ltb,
  ◌==◌, length, slice, Outcome, ok, err, ◌>>=◌,
}
use via_tabula.Base.Bytes.{Bytes, to_le_bytes, from_le_bytes}

pub data WalEntry : Type 0 where
  put : Bytes → Bytes → WalEntry
  delete : Bytes → WalEntry

-- `WalError::Error` and `WalError::Checksum`
pub data WalError : Type 0 where
  error checksum : WalError

-- One round of the loop over the bits, and the eight rounds for a byte.
crc_bit : ℕ → ℕ
crc_bit crc =
    let mask = if not (bit_and crc 1 == 0) then 0xEDB88320 else 0 in bit_xor (crc / 2) mask

crc_bits : ℕ → ℕ → ℕ
crc_bits zero crc = crc
crc_bits (suc n) crc = crc_bits n (crc_bit crc)

crc_bytes : ℕ → Bytes → ℕ
crc_bytes crc [] = crc
crc_bytes crc (byte ∷ data') = crc_bytes (crc_bits 8 (bit_xor crc byte)) data'

-- `!crc` of a u32
unfoldable pub crc32 : Bytes → ℕ
unfolding crc_bytes crc_bits crc_bit
crc32 data' = 0xFFFFFFFF - crc_bytes 0xFFFFFFFF data'

-- `len as u32`, then its little-endian bytes
unfoldable pub u32_bytes : ℕ → Bytes
u32_bytes n = to_le_bytes 4 (n % 2 ^ 32)

-- What `encode` writes before the checksum.
unfoldable pub body : WalEntry → Bytes
body (put key value) = 0 ∷ (u32_bytes (length key) ++ (key ++ (u32_bytes (length value) ++ value)))
body (delete key) = 1 ∷ (u32_bytes (length key) ++ key)

unfoldable pub encode : WalEntry → Bytes
encode entry = let code = body entry in code ++ u32_bytes (crc32 code)

-- `u32::from_le_bytes(code[at..at + 4])`, after a test that the bytes are there
unfoldable pub u32_at : ℕ → Bytes → ℕ
unfolding slice
u32_at at code = from_le_bytes (slice at (at + 4) code)

-- The arm of `decode` for a `Put`: the entry and the length of its body.
unfoldable pub decode_put : Bytes → Outcome WalError (WalEntry × ℕ)
decode_put code =
    if ltb (length code) 5
    then err error
    else (let val_len_start = 5 + u32_at 1 code in
        if ltb (length code) (val_len_start + 4)
        then err error
        else (let val_start = val_len_start + 4 in
            let body_len = val_start + u32_at val_len_start code in
            if ltb (length code) body_len
            then err error
            else ok (put (slice 5 val_len_start code) (slice val_start body_len code), body_len)))

unfoldable pub decode_delete : Bytes → Outcome WalError (WalEntry × ℕ)
decode_delete code =
    if ltb (length code) 5
    then err error
    else (let body_len = 5 + u32_at 1 code in
        if ltb (length code) body_len
        then err error
        else ok (delete (slice 5 body_len code), body_len))

-- The `match op` of `decode`.
unfoldable pub decode_body : Bytes → Outcome WalError (WalEntry × ℕ)
decode_body [] = err error
decode_body (op ∷ rest) =
    if op == 0
    then decode_put (op ∷ rest)
    else if op == 1
    then decode_delete (op ∷ rest)
    else err error

-- The checks that follow it: the checksum is there, and it is that of the body.
unfoldable pub check_sum : Bytes → WalEntry × ℕ → Outcome WalError (WalEntry × ℕ)
check_sum code (entry, body_len) =
    if ltb (length code) (body_len + 4)
    then err error
    else if crc32 (slice 0 body_len code) == u32_at body_len code
    then ok (entry, body_len + 4)
    else err checksum

unfoldable pub decode : Bytes → Outcome WalError (WalEntry × ℕ)
unfolding check_sum
decode code = decode_body code >>= check_sum code
