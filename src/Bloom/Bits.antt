-- ===== src/Bloom/Bits.antt =====
-- One bit of a byte, and of a list of bytes.
use via_tabula.Base.{
  ℕ, zero, suc, ◌/◌, ◌%◌, ◌^◌, ◌<◌, bit_and, bit_or, ◌≡◌, refl, Bool, true, false, ◌&&◌, ◌||◌, none,
  some, [], ◌∷◌, if◌then◌else◌, ltb, ltb→lt, ◌==◌, length, get_elem?, set, All, arith,
}
use via_tabula.Base.Bytes.{Bytes, IsByte}

-- Does the test pass at every number below the bound?
passes_below : (ℕ → Bool) → ℕ → Bool
passes_below test zero = true
passes_below test (suc bound) = passes_below test bound && test bound

at_below :
    (test : ℕ → Bool) (bound : ℕ)
    → passes_below test bound ≡ true
    → (n : ℕ) → n < bound
    → test n ≡ true
unfolding passes_below
at_below test zero passed n small = absurd (omega arith)
at_below test (suc bound) passed n small = ground (arith, at_below test bound (ground arith) n)

-- Is bit `j` of the byte set?
abbrev pub bit : ℕ → ℕ → Bool
bit byte j = if bit_and byte (2 ^ j) == 0 then false else true

abbrev bool_eq : Bool → Bool → Bool
bool_eq true b = b
bool_eq false true = false
bool_eq false false = true

eq_of_bool_eq : (a b : Bool) → bool_eq a b ≡ true → a ≡ b
eq_of_bool_eq a b h = ground arith

abbrev agrees : ℕ → ℕ → ℕ → Bool
agrees byte i j = bool_eq (bit (bit_or byte (2 ^ i)) j) (i == j || bit byte j)

abbrev or_agrees : ℕ → Bool
or_agrees byte = passes_below (λ i. passes_below (agrees byte i) 8) 8

or_table : passes_below or_agrees 256 ≡ true
unfolding passes_below
or_table = refl

-- Setting bit `i` of a byte sets it, and changes no other bit.
pub bit-or :
    (byte i j : ℕ)
    → byte < 256
    → i < 8
    → j < 8
    → bit (bit_or byte (2 ^ i)) j ≡ (i == j || bit byte j)
bit-or byte i j hb hi hj =
    let row = at_below or_agrees 256 or_table byte hb in
    let column = at_below (λ i'. passes_below (agrees byte i') 8) 8 row i hi in
    eq_of_bool_eq _ _ (at_below (agrees byte i) 8 column j hj)

abbrev or_small : ℕ → Bool
or_small byte = passes_below (λ i. ltb (bit_or byte (2 ^ i)) 256) 8

small_table : passes_below or_small 256 ≡ true
unfolding passes_below
small_table = refl

pub bit_or-IsByte : (byte i : ℕ) → byte < 256 → i < 8 → IsByte (bit_or byte (2 ^ i))
bit_or-IsByte byte i hb hi =
    let row = at_below or_small 256 small_table byte hb in
    ltb→lt _ _ (at_below (λ i'. ltb (bit_or byte (2 ^ i')) 256) 8 row i hi)

-- Bit `pos` of a list of bytes; beyond the list no bit is set.
unfoldable pub bit_at : Bytes → ℕ → Bool
bit_at bits pos = elim (get_elem? bits (pos / 8)) [ none ↦ false | some byte ↦ bit byte (pos % 8) ]

pub get_elem?-some :
    (bits : Bytes) (i : ℕ)
    → i < length bits
    → All IsByte bits
    → (byte : ℕ) × (get_elem? bits i ≡ some byte) × IsByte byte
get_elem?-some [] i h a = absurd (omega arith)
get_elem?-some (b ∷ bits) zero h a = (b, refl, a.0)
get_elem?-some (b ∷ bits) (suc i) h a = get_elem?-some bits i (omega arith) a.1

pub get_elem?-set :
    (bits : Bytes) (i j v : ℕ)
    → i < length bits
    → get_elem? (set bits i v) j ≡ (if i == j then some v else get_elem? bits j)
get_elem?-set [] i j v h = absurd (omega arith)
get_elem?-set (b ∷ bits) zero zero v h = refl
get_elem?-set (b ∷ bits) zero (suc j) v h = ground arith
get_elem?-set (b ∷ bits) (suc i) zero v h = ground arith
get_elem?-set (b ∷ bits) (suc i) (suc j) v h = ground (arith, get_elem?-set bits i j v)

pub set-IsByte : (bits : Bytes) (i v : ℕ) → IsByte v → All IsByte bits → All IsByte (set bits i v)
set-IsByte [] i v hv a = tt
set-IsByte (b ∷ bits) zero v hv a = (hv, a.1)
set-IsByte (b ∷ bits) (suc i) v hv a = (a.0, set-IsByte bits i v hv a.1)

-- Writing the byte of `pos` with its bit set sets that bit of the list, and no other.
pub bit_at-set :
    (bits : Bytes) (byte pos q : ℕ)
    → pos / 8 < length bits
    → get_elem? bits (pos / 8) ≡ some byte
    → IsByte byte
    → bit_at (set bits (pos / 8) (bit_or byte (2 ^ (pos % 8)))) q ≡ (pos == q || bit_at bits q)
unfolding bit_at
bit_at-set bits byte pos q h e hb = ground (
  arith,
  get_elem?-set bits (pos / 8) (q / 8) (bit_or byte (2 ^ (pos % 8))) h,
  bit-or byte (pos % 8) (q % 8) hb (omega arith) (omega arith),
)
