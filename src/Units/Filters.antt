-- ===== src/Units/Filters.antt =====
-- The tests in src/bloom.rs on how insert changes the bits, with the floating-point arithmetic of
-- `BloomFilter::new` as a parameter.
use via_tabula.Base.{
  ℕ, zero, suc, ◌+◌, ◌/◌, ◌%◌, ◌^◌, ◌≡◌, refl, Bool, true, false, ◌&&◌, not, none, some, [], ◌∷◌,
  ◌==◌, ltb, bit_and, get_elem?, Outcome, ok, err, panic, ◌>>=◌,
}
use via_tabula.Base.Bytes.{Bytes}
use via_tabula.Base.Order.{cmp, eqb}
use via_tabula.Bloom.{BloomFilter, new_filter, insert, insert_loop, set_bit, fnv_1a, djb2, position}
use via_tabula.Bloom.Arith.{Floats}
use via_tabula.Tests.Tables.{hundredths}

abbrev hello : Bytes
hello = b'h' ∷ b'e' ∷ b'l' ∷ b'l' ∷ b'o' ∷ []

abbrev repeat_me : Bytes
repeat_me = b'r' ∷ b'e' ∷ b'p' ∷ b'e' ∷ b'a' ∷ b't' ∷ b'-' ∷ b'm' ∷ b'e' ∷ []

abbrev first_key : Bytes
first_key = b'f' ∷ b'i' ∷ b'r' ∷ b's' ∷ b't' ∷ b'-' ∷ b'k' ∷ b'e' ∷ b'y' ∷ []

abbrev second_key : Bytes
second_key = b's' ∷ b'e' ∷ b'c' ∷ b'o' ∷ b'n' ∷ b'd' ∷ b'-' ∷ b'k' ∷ b'e' ∷ b'y' ∷ []

abbrev third_key : Bytes
third_key = b't' ∷ b'h' ∷ b'i' ∷ b'r' ∷ b'd' ∷ b'-' ∷ b'k' ∷ b'e' ∷ b'y' ∷ []

holds : Outcome (Unit {0}) Bool → Bool
holds (ok b) = b
holds (err e) = false
holds panic = false

-- The bits of the first `rounds` positions are set.
all_set : ℕ → BloomFilter → ℕ → ℕ → Bool
all_set zero filter h1 h2 = true
all_set (suc i) filter h1 h2 =
    let pos = position filter.m h1 h2 i in
    let here : Bool = elim (get_elem? filter.bits (pos / 8)) [
      | none ↦ false
      | some byte ↦ not (bit_and byte (2 ^ (pos % 8)) == 0)
    ] in
    here && all_set i filter h1 h2

insert_sets_the_expected_bit_positions : Floats → Outcome (Unit {0}) Bool
unfolding all_set
insert_sets_the_expected_bit_positions fl =
    insert (new_filter fl 100 fl.one_percent) hello >>= λ filter.
    ok (all_set filter.k filter (fnv_1a hello) (djb2 hello))

insert_sets_the_expected_bit_positions_lem :
    holds (insert_sets_the_expected_bit_positions hundredths) ≡ true
unfolding insert_sets_the_expected_bit_positions holds new_filter insert insert_loop set_bit fnv_1a
    djb2 position
insert_sets_the_expected_bit_positions_lem = refl

insert_is_deterministic : Floats → Outcome (Unit {0}) Bool
insert_is_deterministic fl = insert (new_filter fl 100 fl.one_percent) repeat_me >>= λ filter.
    insert filter repeat_me >>= λ after. ok (eqb after.bits filter.bits)

insert_is_deterministic_lem : holds (insert_is_deterministic hundredths) ≡ true
unfolding insert_is_deterministic holds new_filter insert insert_loop set_bit fnv_1a djb2 position
    cmp
insert_is_deterministic_lem = refl

-- `count_ones` of a byte, from the bit below `n` on
count_ones : ℕ → ℕ → ℕ
count_ones zero byte = 0
count_ones (suc n) byte = byte % 2 + count_ones n (byte / 2)

bits_set : Bytes → ℕ
unfolding count_ones
bits_set [] = 0
bits_set (byte ∷ bits) = count_ones 8 byte + bits_set bits

insert_different_keys_sets_more_bits : Floats → Outcome (Unit {0}) Bool
unfolding bits_set
insert_different_keys_sets_more_bits fl =
    let filter = new_filter fl 100 fl.one_percent in
    let bits_before_set = bits_set filter.bits in
    insert filter first_key >>= λ one. insert one second_key >>= λ two.
    insert two third_key >>= λ three. ok (ltb bits_before_set (bits_set three.bits))

insert_different_keys_sets_more_bits_lem :
    holds (insert_different_keys_sets_more_bits hundredths) ≡ true
unfolding insert_different_keys_sets_more_bits holds new_filter insert insert_loop set_bit fnv_1a
    djb2 position
insert_different_keys_sets_more_bits_lem = refl
