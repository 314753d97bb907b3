-- ===== src/Bloom/Create.antt =====
-- `BloomFilter::new`, whatever the floating-point operations are that keep to the laws below.
use via_tabula.Base.{
  ℕ, zero, suc, ◌^◌, ◌<◌, ◌⊎◌, ◌≡◌, refl, length, replicate, All, inl, inr, arith,
}
use via_tabula.Base.Bytes.{IsByte}
use via_tabula.Bloom.{IsFilter, new_filter, byte_len}
use via_tabula.Bloom.Arith.{Floats}

-- A conversion to usize saturates and takes what is no number to 0, and zero divided by anything is
-- zero or no number.
pub record FloatLaws (fl : Floats) : Type 0 where
  pub ceil_small : (x : fl.F) → fl.ceil_usize x < 2 ^ 64
  pub round_small : (x : fl.F) → fl.round_usize x < 2 ^ 64
  pub round_zero : (x : fl.F) → fl.round_usize (fl.mul (fl.div (fl.of_usize 0) x) fl.ln_2) ≡ 0

length-replicate : (n b : ℕ) → length (replicate n b) ≡ n
length-replicate zero b = refl
length-replicate (suc n) b = omega (arith, length-replicate n b)

All-replicate : (n b : ℕ) → IsByte b → All IsByte (replicate n b)
All-replicate zero b h = tt
All-replicate (suc n) b h = (h, All-replicate n b h)

zero_or_more : (n : ℕ) → (n ≡ 0) ⊎ (0 < n)
zero_or_more zero = inl refl
zero_or_more (suc n) = inr (omega arith)

pub new_filter-IsFilter :
    (fl : Floats) (laws : FloatLaws fl) (n : ℕ) (rate : fl.F)
    → IsFilter (new_filter fl n rate)
      × ((new_filter fl n rate).k < 2 ^ 64)
      × ((new_filter fl n rate).m < 2 ^ 64)
unfolding new_filter
new_filter-IsFilter fl laws n rate =
    let f = new_filter fl n rate in
    (
      record {
        sized = length-replicate (byte_len f.m) 0;
        bytes = All-replicate (byte_len f.m) 0 (omega arith);
        some_bit = elim (zero_or_more f.m) [
          | inl e ↦ inl (rw e (laws.round_zero (fl.of_usize n)))
          | inr h ↦ inr h
        ];
      },
      laws.round_small _,
      laws.ceil_small _,
    )
