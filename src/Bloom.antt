-- ===== src/Bloom.antt =====
-- src/bloom.rs: the Bloom filter.
pub mod Bits
pub mod Positions
pub mod Insert
pub mod Create
pub mod Serial
pub mod Arith
use via_tabula.Base.{
  ℕ, zero, suc, ◌+◌, ◌*◌, ◌/◌, ◌%◌, ◌^◌, ◌<◌, ◌≤◌, bit_and, bit_or, bit_xor, ◌≡◌, ◌⊎◌, Bool, true,
  false, Option, none, some, List, [], ◌∷◌, ◌++◌, if◌then◌else◌, ltb, ◌==◌, length, get_elem?, set,
  replicate, slice, drop, All, Outcome, ok, err, panic, ◌>>=◌,
}
use via_tabula.Base.Bytes.{Bytes, IsByte, to_le_bytes, from_le_bytes}
use Arith.{Floats}

pub record BloomFilter : Type 0 where
  pub bits : Bytes
  pub k : ℕ
  pub m : ℕ

-- `m.div_ceil(8)`
abbrev pub byte_len : ℕ → ℕ
byte_len m = (m + 7) / 8

-- `BloomFilter::new`, with the floating-point arithmetic as a parameter.
unfoldable pub new_filter : (fl : Floats) → ℕ → Floats.F fl → BloomFilter
new_filter fl expected_keys fp_rate =
    let n = fl.of_usize expected_keys in
    let m = fl.ceil_usize (fl.div (fl.mul (fl.neg n) (fl.ln fp_rate)) (fl.powi fl.ln_2 2)) in
    let k = fl.round_usize (fl.mul (fl.div (fl.of_usize m) n) fl.ln_2) in
    record { bits = replicate (byte_len m) 0; k = k; m = m }

fnv_1a_loop : ℕ → Bytes → ℕ
fnv_1a_loop hash [] = hash
fnv_1a_loop hash (byte ∷ key) = fnv_1a_loop (bit_xor hash byte * 1099511628211 % 2 ^ 64) key

unfoldable pub fnv_1a : Bytes → ℕ
unfolding fnv_1a_loop
fnv_1a key = fnv_1a_loop 14695981039346656037 key

djb2_loop : ℕ → Bytes → ℕ
djb2_loop hash [] = hash
djb2_loop hash (byte ∷ key) =
    djb2_loop (((hash * 2 ^ 5 % 2 ^ 64 + hash) % 2 ^ 64 + byte) % 2 ^ 64) key

unfoldable pub djb2 : Bytes → ℕ
unfolding djb2_loop
djb2 key = djb2_loop 5381 key

-- `h1.wrapping_add((i as u64).wrapping_mul(h2)) % m`, where `m` is not 0
unfoldable pub position : ℕ → ℕ → ℕ → ℕ → ℕ
position m h1 h2 i = (h1 + i * h2 % 2 ^ 64) % 2 ^ 64 % m

module _ {ℓ} {E : Type ℓ} where
  -- `self.bits[byte_index] |= 1 << bit_index`; an index out of bounds panics
  unfoldable pub set_bit : Bytes → ℕ → Outcome E Bytes
  set_bit bits pos = elim (get_elem? bits (pos / 8)) [
    | none ↦ panic
    | some byte ↦ ok (set bits (pos / 8) (bit_or byte (2 ^ (pos % 8))))
  ]

  -- `self.bits[byte_index] & (1 << bit_index) == 0`, negated
  unfoldable pub get_bit : Bytes → ℕ → Outcome E Bool
  get_bit bits pos = elim (get_elem? bits (pos / 8)) [
    | none ↦ panic
    | some byte ↦ ok (if bit_and byte (2 ^ (pos % 8)) == 0 then false else true)
  ]

  -- The `for i in 0..k` of `insert`, from round `i` on; `% m` panics at 0.
  unfoldable pub insert_loop : ℕ → ℕ → ℕ → ℕ → ℕ → Bytes → Outcome E Bytes
  insert_loop zero m h1 h2 i bits = ok bits
  insert_loop (suc rounds) m h1 h2 i bits = elim (m == 0) [
    | true ↦ panic
    | false ↦ set_bit bits (position m h1 h2 i) >>= insert_loop rounds m h1 h2 (i + 1)
  ]

  unfoldable pub insert : BloomFilter → Bytes → Outcome E BloomFilter
  insert f key = do
    bits ← insert_loop f.k f.m (fnv_1a key) (djb2 key) 0 f.bits
    ok (record f { bits = bits })

  abbrev if_set : Outcome E Bool → Bool → Outcome E Bool
  if_set rest true = rest
  if_set rest false = ok false

  unfoldable pub may_contain_loop : ℕ → ℕ → ℕ → ℕ → ℕ → Bytes → Outcome E Bool
  may_contain_loop zero m h1 h2 i bits = ok true
  may_contain_loop (suc rounds) m h1 h2 i bits = elim (m == 0) [
    | true ↦ panic
    | false ↦
        get_bit bits (position m h1 h2 i) >>= if_set (may_contain_loop rounds m h1 h2 (i + 1) bits)
  ]

  unfoldable pub may_contain : BloomFilter → Bytes → Outcome E Bool
  may_contain f key = may_contain_loop f.k f.m (fnv_1a key) (djb2 key) 0 f.bits

  -- The slices `bytes[0..8]` and `bytes[8..16]` panic where the bytes are not there.
  unfoldable pub from_bytes : Bytes → Outcome E BloomFilter
  from_bytes bytes =
      if ltb (length bytes) 16
      then panic
      else ok (record {
        bits = drop 16 bytes;
        k = from_le_bytes (slice 0 8 bytes);
        m = from_le_bytes (slice 8 16 bytes);
      })

unfoldable pub to_bytes : BloomFilter → Bytes
to_bytes f = to_le_bytes 8 f.k ++ (to_le_bytes 8 f.m ++ f.bits)

-- What `new_filter` makes and `insert` keeps: there is a byte for every bit, and a filter that
-- hashes at all has a bit.
pub record IsFilter (f : BloomFilter) : Type 0 where
  pub sized : length f.bits ≡ byte_len f.m
  pub bytes : All IsByte f.bits
  pub some_bit : (f.k ≡ 0) ⊎ (0 < f.m)
