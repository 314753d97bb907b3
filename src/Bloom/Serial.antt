-- ===== src/Bloom/Serial.antt =====
-- A filter survives its byte form.
use via_tabula.Base.{
  ℕ, ◌^◌, ◌<◌, ◌≤◌, ◌≡◌, refl, [], ◌++◌, length, length-append, append_assoc, slice_in, drop_append,
  arith, ok, drop, slice,
}
use via_tabula.Base.Bytes.{
  Bytes, to_le_bytes, from_le_bytes, from_le_bytes-to_le_bytes, length-to_le_bytes,
}
use via_tabula.Bloom.{BloomFilter, to_bytes, from_bytes}

module _ {ℓ} {E : Type ℓ} where
  from_bytes_ok :
      (bytes bits : Bytes) (k m : ℕ)
      → 16 ≤ length bytes
      → from_le_bytes (slice 0 8 bytes) ≡ k
      → from_le_bytes (slice 8 16 bytes) ≡ m
      → drop 16 bytes ≡ bits
      → from_bytes {E = E} bytes ≡ ok (record { bits = bits; k = k; m = m })
  unfolding from_bytes
  from_bytes_ok bytes bits k m h ek em eb = rw (ek, em, eb) (ground arith)

  -- `from_bytes` reads back the filter that `to_bytes` wrote, if its two sizes are 64-bit numbers.
  pub from_bytes-to_bytes :
      (f : BloomFilter) → f.k < 2 ^ 64 → f.m < 2 ^ 64 → from_bytes {E = E} (to_bytes f) ≡ ok f
  unfolding to_bytes
  from_bytes-to_bytes f hk hm =
      let k = to_le_bytes 8 f.k in
      let m = to_le_bytes 8 f.m in
      let lk = length-to_le_bytes 8 f.k in
      let lm = length-to_le_bytes 8 f.m in
      let whole = k ++ (m ++ f.bits) in
      from_bytes_ok whole f.bits f.k f.m
        (omega (arith, length-append k (m ++ f.bits), length-append m f.bits))
        (rw (slice_in 0 8 [] k (m ++ f.bits) whole refl refl (omega arith))
          (from_le_bytes-to_le_bytes 8 f.k hk))
        (rw (slice_in 8 16 k m f.bits whole refl (omega arith) (omega arith))
          (from_le_bytes-to_le_bytes 8 f.m hm))
        (rw (← append_assoc) (drop_append 16 (k ++ m) f.bits (omega (arith, length-append k m))))
