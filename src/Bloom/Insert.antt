-- ===== src/Bloom/Insert.antt =====
-- The Bloom filter never loses a key: no operation panics on a well-formed filter, and a key that was
-- inserted is reported present after any further insertions.
use via_tabula.Base.{
  ℕ, zero, suc, ◌+◌, ◌<◌, ◌≡◌, refl, ap, ◌∙◌, Bool, true, ◌||◌, ◌⊎◌, List, [], ◌∷◌, length, All,
  arith, Outcome, ok, ◌>>=◌,
}
use via_tabula.Base.Bytes.{Bytes, IsByte}
use via_tabula.Bloom.{BloomFilter, IsFilter, byte_len, position, fnv_1a, djb2, insert, may_contain}
use via_tabula.Bloom.{insert_loop, may_contain_loop}
use via_tabula.Bloom.Bits.{bit_at}
use via_tabula.Bloom.Positions.{hits, all_set, insert_loop_ok, may_contain_loop_ok}

-- `q` is one of the `k` positions of the key.
abbrev pub hits_key : BloomFilter → Bytes → ℕ → Bool
hits_key f key q = hits f.m (fnv_1a key) (djb2 key) f.k 0 q

abbrev pub all_set_key : BloomFilter → Bytes → Bool
all_set_key f key = all_set f.m (fnv_1a key) (djb2 key) f.k 0 f.bits

-- What an insertion does to a well-formed filter.
pub record Inserted (f : BloomFilter) (key : Bytes) (f' : BloomFilter) : Type 0 where
  pub valid : IsFilter f'
  pub same_k : f'.k ≡ f.k
  pub same_m : f'.m ≡ f.m
  pub at : (q : ℕ) → bit_at f'.bits q ≡ (hits_key f key q || bit_at f.bits q)

module _ {ℓ} {E : Type ℓ} where
  insert_rounds :
      (rounds m h1 h2 : ℕ) (bits : Bytes)
      → (rounds ≡ 0) ⊎ (0 < m)
      → length bits ≡ byte_len m
      → All IsByte bits
      → (bits' : Bytes) × (insert_loop {E = E} rounds m h1 h2 0 bits ≡ ok bits')
        × (length bits' ≡ length bits)
        × All IsByte bits'
        × ((q : ℕ) → bit_at bits' q ≡ (hits m h1 h2 rounds 0 q || bit_at bits q))
  insert_rounds zero m h1 h2 bits c s a =
      unfold insert_loop hits in (bits, refl, refl, a, λ q. refl)
  insert_rounds (suc rounds) m h1 h2 bits c s a =
      insert_loop_ok (suc rounds) m h1 h2 0 bits (ground arith) s a

  -- Inserting into a well-formed filter does not panic. It gives a well-formed filter of the same
  -- size in which exactly the bits of the key's positions are set besides those set before.
  pub insert_exact :
      (f : BloomFilter) (key : Bytes)
      → IsFilter f
      → (f' : BloomFilter) × (insert {E = E} f key ≡ ok f') × Inserted f key f'
  unfolding insert
  insert_exact f key v =
      let (bits, e, n, b, at) =
        insert_rounds f.k f.m (fnv_1a key) (djb2 key) f.bits v.some_bit v.sized v.bytes in
      (
        record f { bits = bits },
        rw e,
        record {
          valid = record { sized = n ∙ v.sized; bytes = b; some_bit = v.some_bit };
          same_k = refl;
          same_m = refl;
          at = at;
        },
      )

  may_contain_rounds :
      (rounds m h1 h2 : ℕ) (bits : Bytes)
      → (rounds ≡ 0) ⊎ (0 < m)
      → length bits ≡ byte_len m
      → All IsByte bits
      → may_contain_loop {E = E} rounds m h1 h2 0 bits ≡ ok (all_set m h1 h2 rounds 0 bits)
  may_contain_rounds zero m h1 h2 bits c s a = unfold may_contain_loop all_set in refl
  may_contain_rounds (suc rounds) m h1 h2 bits c s a =
      may_contain_loop_ok (suc rounds) m h1 h2 0 bits (ground arith) s a

  -- A query of a well-formed filter does not panic, and answers whether all of the key's positions
  -- are set.
  pub may_contain_exact :
      (f : BloomFilter) (key : Bytes)
      → IsFilter f
      → may_contain {E = E} f key ≡ ok (all_set_key f key)
  unfolding may_contain
  may_contain_exact f key v =
      may_contain_rounds f.k f.m (fnv_1a key) (djb2 key) f.bits v.some_bit v.sized v.bytes

module _ (m h1 h2 : ℕ) where
  all_set-hits :
      (rounds i : ℕ) (bits : Bytes)
      → ((q : ℕ) → hits m h1 h2 rounds i q ≡ true → bit_at bits q ≡ true)
      → all_set m h1 h2 rounds i bits ≡ true
  unfolding hits all_set
  all_set-hits zero i bits h = refl
  all_set-hits (suc rounds) i bits h =
      ground (
        arith,
        h (position m h1 h2 i),
        all_set-hits rounds (i + 1) bits (λ q p. h q (ground arith)),
      )

  all_set_mono :
      (rounds i : ℕ) (bits bits' : Bytes)
      → ((q : ℕ) → bit_at bits q ≡ true → bit_at bits' q ≡ true)
      → all_set m h1 h2 rounds i bits ≡ true
      → all_set m h1 h2 rounds i bits' ≡ true
  unfolding all_set
  all_set_mono zero i bits bits' h e = refl
  all_set_mono (suc rounds) i bits bits' h e =
      ground (arith, h (position m h1 h2 i), all_set_mono rounds (i + 1) bits bits' h)

Inserted-set : (f f' : BloomFilter) (key : Bytes) → Inserted f key f' → all_set_key f' key ≡ true
Inserted-set f f' key i =
    all_set-hits f'.m (fnv_1a key) (djb2 key) f'.k 0 f'.bits
      (λ q p. ground (arith, i.at q, i.same_m, i.same_k))

-- A filter that was filled with the keys, in order.
module _ {ℓ} {E : Type ℓ} where
  unfoldable pub insert_all : BloomFilter → List Bytes → Outcome E BloomFilter
  insert_all f [] = ok f
  insert_all f (key ∷ keys) = insert f key >>= λ f'. insert_all f' keys

  -- A key that is reported present stays so when bits are added.
  present_mono :
      (f f' : BloomFilter) (key : Bytes)
      → IsFilter f'
      → f'.k ≡ f.k
      → f'.m ≡ f.m
      → ((q : ℕ) → bit_at f.bits q ≡ true → bit_at f'.bits q ≡ true)
      → all_set_key f key ≡ true
      → may_contain {E = E} f' key ≡ ok true
  present_mono f f' key v ek em h e =
      may_contain_exact f' key v
      ∙ rw (ek, em) (ap ok (all_set_mono f.m (fnv_1a key) (djb2 key) f.k 0 f.bits f'.bits h e))

  pub insert_all_keeps :
      (f : BloomFilter) (keys : List Bytes)
      → IsFilter f
      → (f' : BloomFilter) × (insert_all f keys ≡ ok f')
        × IsFilter f'
        × (f'.k ≡ f.k)
        × (f'.m ≡ f.m)
        × ((q : ℕ) → bit_at f.bits q ≡ true → bit_at f'.bits q ≡ true)
  unfolding insert_all
  insert_all_keeps f [] v = (f, refl, v, refl, refl, λ q p. p)
  insert_all_keeps f (key ∷ keys) v =
      let (g, e, i) = insert_exact {E = E} f key v in
      let (f', e', v', ek, em, h) = insert_all_keeps g keys i.valid in
      (f', rw e e', v', ek ∙ i.same_k, em ∙ i.same_m, λ q p. h q (ground (arith, i.at q)))

  -- No false negatives: filling a well-formed filter with any keys does not panic, and afterwards
  -- every one of the keys is reported present.
  pub may_contain-insert_all :
      (f : BloomFilter) (keys : List Bytes)
      → IsFilter f
      → (f' : BloomFilter) × (insert_all f keys ≡ ok f')
        × IsFilter f'
        × All (λ key. may_contain {E = E} f' key ≡ ok true) keys
  unfolding insert_all
  may_contain-insert_all f [] v = (f, refl, v, tt)
  may_contain-insert_all f (key ∷ keys) v =
      let (g, e, i) = insert_exact {E = E} f key v in
      let (f', e', v', ek, em, h) = insert_all_keeps g keys i.valid in
      let (last, el, vl, all) = may_contain-insert_all g keys i.valid in
      let same : last ≡ f' = ground (arith, el, e') in
      (
        last,
        rw e el,
        vl,
        (rw same (present_mono g f' key v' ek em h (Inserted-set f g key i)), all),
      )
