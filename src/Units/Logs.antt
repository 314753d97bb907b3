-- ===== src/Units/Logs.antt =====
-- The tests in src/wal.rs that touch no file.
use via_tabula.Base.{
  ℕ, zero, suc, ◌-◌, ◌≡◌, refl, Bool, true, false, ◌&&◌, [], ◌∷◌, ◌==◌, bit_xor, get_elem?, some,
  none, set, length, take, slice, Outcome, ok, err, panic,
}
use via_tabula.Base.Bytes.{Bytes, to_le_bytes, from_le_bytes}
use via_tabula.Base.Order.{cmp, eqb}
use via_tabula.Wal.{
  WalEntry, put, delete, WalError, error, checksum, encode, body, u32_bytes, crc32, decode,
  decode_body, decode_put, decode_delete, u32_at, check_sum,
}

abbrev hello : Bytes
hello = b'h' ∷ b'e' ∷ b'l' ∷ b'l' ∷ b'o' ∷ []

abbrev world : Bytes
world = b'w' ∷ b'o' ∷ b'r' ∷ b'l' ∷ b'd' ∷ []

abbrev bye : Bytes
bye = b'b' ∷ b'y' ∷ b'e' ∷ []

-- A decode gave the entry and took this number of bytes.
is_put : Outcome WalError (WalEntry × ℕ) → Bytes → Bytes → ℕ → Bool
is_put (ok (put k v, consumed)) key value n = eqb k key && eqb v value && consumed == n
is_put (ok (delete k, consumed)) key value n = false
is_put (err e) key value n = false
is_put panic key value n = false

is_delete : Outcome WalError (WalEntry × ℕ) → Bytes → ℕ → Bool
is_delete (ok (put k v, consumed)) key n = false
is_delete (ok (delete k, consumed)) key n = eqb k key && consumed == n
is_delete (err e) key n = false
is_delete panic key n = false

is_error : Outcome WalError (WalEntry × ℕ) → Bool
is_error (ok r) = false
is_error (err error) = true
is_error (err checksum) = false
is_error panic = false

is_checksum : Outcome WalError (WalEntry × ℕ) → Bool
is_checksum (ok r) = false
is_checksum (err error) = false
is_checksum (err checksum) = true
is_checksum panic = false

test_encode_decode_put : Bool
test_encode_decode_put =
    let bytes = encode (put hello world) in is_put (decode bytes) hello world (length bytes)

test_encode_decode_put_lem : test_encode_decode_put ≡ true
unfolding test_encode_decode_put is_put encode body u32_bytes crc32 decode decode_body decode_put
    u32_at check_sum slice to_le_bytes from_le_bytes cmp
test_encode_decode_put_lem = refl

test_encode_decode_delete : Bool
test_encode_decode_delete =
    let bytes = encode (delete bye) in is_delete (decode bytes) bye (length bytes)

test_encode_decode_delete_lem : test_encode_decode_delete ≡ true
unfolding test_encode_decode_delete is_delete encode body u32_bytes crc32 decode decode_body
    decode_delete u32_at check_sum slice to_le_bytes from_le_bytes cmp
test_encode_decode_delete_lem = refl

-- `is_err()`
test_decode_invalid_op_returns_error : Bool
test_decode_invalid_op_returns_error = is_error (decode (9 ∷ 0 ∷ 0 ∷ 0 ∷ 0 ∷ []))

test_decode_invalid_op_returns_error_lem : test_decode_invalid_op_returns_error ≡ true
unfolding test_decode_invalid_op_returns_error is_error decode decode_body
test_decode_invalid_op_returns_error_lem = refl

-- The loop over the cuts below `n`, from the last to the first.
all_cuts : ℕ → Bytes → Bool
unfolding is_error
all_cuts zero bytes = true
all_cuts (suc cut) bytes = is_error (decode (take cut bytes)) && all_cuts cut bytes

test_decode_truncated_entry_returns_error_not_panic : Bool
test_decode_truncated_entry_returns_error_not_panic =
    let bytes = encode (put hello world) in all_cuts (length bytes) bytes

test_decode_truncated_entry_returns_error_not_panic_lem :
    test_decode_truncated_entry_returns_error_not_panic ≡ true
unfolding test_decode_truncated_entry_returns_error_not_panic all_cuts encode body u32_bytes crc32
    decode decode_body decode_put u32_at check_sum slice to_le_bytes from_le_bytes
test_decode_truncated_entry_returns_error_not_panic_lem = refl

-- `bytes[last] ^= 0xFF`
flip : Bytes → ℕ → Bytes
flip bytes last = elim (get_elem? bytes last) [
  | none ↦ bytes
  | some byte ↦ set bytes last (bit_xor byte 0xFF)
]

test_decode_corrupted_bytes_returns_checksum_error : Bool
unfolding flip
test_decode_corrupted_bytes_returns_checksum_error =
    let bytes = encode (put hello world) in is_checksum (decode (flip bytes (length bytes - 5)))

test_decode_corrupted_bytes_returns_checksum_error_lem :
    test_decode_corrupted_bytes_returns_checksum_error ≡ true
unfolding test_decode_corrupted_bytes_returns_checksum_error is_checksum encode body u32_bytes crc32
    decode decode_body decode_put u32_at check_sum slice to_le_bytes from_le_bytes
test_decode_corrupted_bytes_returns_checksum_error_lem = refl
