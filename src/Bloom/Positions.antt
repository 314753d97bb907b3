-- ===== src/Bloom/Positions.antt =====
-- `insert` sets the bits of a key's positions and no other, and `may_contain` reads exactly those.
use via_tabula.Base.{
  ℕ, zero, suc, ◌+◌, ◌/◌, ◌%◌, ◌^◌, ◌<◌, bit_or, ◌≡◌, refl, Bool, true, false, ◌&&◌, ◌||◌, ◌==◌,
  length, length-set, set, All, arith, ok,
}
use via_tabula.Base.Bytes.{Bytes, IsByte}
use via_tabula.Bloom.{byte_len, position, set_bit, get_bit, insert_loop}
use via_tabula.Bloom.{may_contain_loop}
use via_tabula.Bloom.Bits.{bit_at, bit_at-set, bit_or-IsByte, set-IsByte, get_elem?-some}

module _ (m h1 h2 : ℕ) where
  -- `q` is the position of one of the rounds from `i` on.
  unfoldable pub hits : ℕ → ℕ → ℕ → Bool
  hits zero i q = false
  hits (suc rounds) i q = position m h1 h2 i == q || hits rounds (i + 1) q

  -- All positions of the rounds from `i` on are set.
  unfoldable pub all_set : ℕ → ℕ → Bytes → Bool
  all_set zero i bits = true
  all_set (suc rounds) i bits = bit_at bits (position m h1 h2 i) && all_set rounds (i + 1) bits

position-lt : (m h1 h2 i : ℕ) → 0 < m → position m h1 h2 i < m
unfolding position
position-lt m h1 h2 i h = omega arith

module _ {ℓ} {E : Type ℓ} where
  -- A position below `8 * length bits` can be set.
  pub set_bit_ok :
      (bits : Bytes) (pos : ℕ)
      → pos / 8 < length bits
      → All IsByte bits
      → (bits' : Bytes) × (set_bit {E = E} bits pos ≡ ok bits')
        × (length bits' ≡ length bits)
        × All IsByte bits'
        × ((q : ℕ) → bit_at bits' q ≡ (pos == q || bit_at bits q))
  unfolding set_bit
  set_bit_ok bits pos h a =
      let (byte, e, hb) = get_elem?-some bits (pos / 8) h a in
      let new = bit_or byte (2 ^ (pos % 8)) in
      (
        set bits (pos / 8) new,
        rw (e, set_bit),
        length-set bits (pos / 8) new,
        set-IsByte bits (pos / 8) new (bit_or-IsByte byte (pos % 8) hb (omega arith)) a,
        λ q. bit_at-set bits byte pos q h e hb,
      )

  get_bit_ok :
      (bits : Bytes) (pos : ℕ)
      → pos / 8 < length bits
      → All IsByte bits
      → get_bit {E = E} bits pos ≡ ok (bit_at bits pos)
  unfolding get_bit bit_at
  get_bit_ok bits pos h a =
      let (byte, e, hb) = get_elem?-some bits (pos / 8) h a in rw (e, get_bit, bit_at)

  pub insert_loop_ok :
      (rounds m h1 h2 i : ℕ) (bits : Bytes)
      → 0 < m
      → length bits ≡ byte_len m
      → All IsByte bits
      → (bits' : Bytes) × (insert_loop {E = E} rounds m h1 h2 i bits ≡ ok bits')
        × (length bits' ≡ length bits)
        × All IsByte bits'
        × ((q : ℕ) → bit_at bits' q ≡ (hits m h1 h2 rounds i q || bit_at bits q))
  unfolding insert_loop hits
  insert_loop_ok zero m h1 h2 i bits h s a = (bits, refl, refl, a, λ q. refl)
  insert_loop_ok (suc rounds) m h1 h2 i bits h s a =
      let pos = position m h1 h2 i in
      let (mid, e, n, b, f) = set_bit_ok bits pos (omega (arith, position-lt m h1 h2 i h)) a in
      let (last, e', n', b', f') = insert_loop_ok rounds m h1 h2 (i + 1) mid h (omega arith) b in
      (last, ground arith, omega arith, b', λ q. ground (arith, f q, f' q))

  pub may_contain_loop_ok :
      (rounds m h1 h2 i : ℕ) (bits : Bytes)
      → 0 < m
      → length bits ≡ byte_len m
      → All IsByte bits
      → may_contain_loop {E = E} rounds m h1 h2 i bits ≡ ok (all_set m h1 h2 rounds i bits)
  unfolding may_contain_loop all_set
  may_contain_loop_ok zero m h1 h2 i bits h s a = refl
  may_contain_loop_ok (suc rounds) m h1 h2 i bits h s a = ground (
    arith,
    get_bit_ok bits (position m h1 h2 i) (omega (arith, position-lt m h1 h2 i h)) a,
    may_contain_loop_ok rounds m h1 h2 (i + 1) bits h s a,
  )
