-- ===== src/Levels/Digits.antt =====
-- The decimal numbers in the names of SSTable files.
use via_tabula.Base.{
  ℕ, zero, suc, ◌+◌, ◌-◌, ◌*◌, ◌^◌, ◌/◌, ◌%◌, ◌≤◌, ◌<◌, ◌≡◌, refl, ◌∙◌, sym, ap, [], ◌∷◌, ◌++◌,
  append_assoc, append-nil, arith, ltb, ◌⊎◌, inl, inr, Bool-cases, All, All-append, length,
  length-append,
}
use via_tabula.Base.Bytes.{Bytes}
use via_tabula.Base.Order.{cmp, ◌≺◌}
use native.Mathlib.Nat.{pow-suc}
use via_tabula.Levels.{decimal_loop, decimal}

-- What a text of digits stands for, behind a number that was read before it.
abbrev pub read_on : ℕ → Bytes → ℕ
read_on n [] = n
read_on n (c ∷ cs) = read_on (n * 10 + (c - b'0')) cs

-- The last `k` digits of a number, with leading zeros.
abbrev pub digits : ℕ → ℕ → Bytes
digits zero n = []
digits (suc k) n = digits k (n / 10) ++ ((b'0' + n % 10) ∷ [])

-- A number of `k + 1` digits, the first of them not 0 if there are others.
abbrev pub HasDigits : ℕ → ℕ → Type 0
HasDigits zero n = n < 10
HasDigits (suc k) n = (10 ≤ n) × HasDigits k (n / 10)

pow_pos : (k : ℕ) → 1 ≤ 10 ^ k
pow_pos zero = omega arith
pow_pos (suc k) = omega (arith, pow-suc 10 k, pow_pos k)

pub bounds-HasDigits : (k n : ℕ) → 10 ^ k ≤ n → n < 10 ^ suc k → HasDigits k n
bounds-HasDigits zero n lo hi = omega arith
bounds-HasDigits (suc k) n lo hi =
    let small = pow-suc 10 k in
    let big = pow-suc 10 (suc k) in
    (omega (arith, pow_pos k), bounds-HasDigits k (n / 10) (omega arith) (omega arith))

decimal_loop-digits :
    (k fuel n : ℕ) (rest : Bytes)
    → n < fuel
    → HasDigits k n
    → decimal_loop fuel n rest ≡ digits (suc k) n ++ rest
unfolding decimal_loop
decimal_loop-digits k zero n rest lt h = absurd (omega arith)
decimal_loop-digits zero (suc fuel) n rest lt h = ground arith
decimal_loop-digits (suc k) (suc fuel) n rest lt h =
    let c = b'0' + n % 10 in
    let more = decimal_loop-digits k fuel (n / 10) (c ∷ rest) (omega arith) h.1 in
    let round : decimal_loop (suc fuel) n rest ≡ decimal_loop fuel (n / 10) (c ∷ rest) =
      ground (arith, h.0) in
    round ∙ more ∙ sym (append_assoc (digits (suc k) (n / 10)) (c ∷ []) rest)

pub decimal-digits : (k n : ℕ) → HasDigits k n → decimal n ≡ digits (suc k) n
unfolding decimal
decimal-digits k n h =
    decimal_loop-digits k (suc n) n [] (omega arith) h ∙ append-nil (digits (suc k) n)

pub length-digits : (k n : ℕ) → length (digits k n) ≡ k
length-digits zero n = refl
length-digits (suc k) n =
    length-append (digits k (n / 10)) ((b'0' + n % 10) ∷ [])
    ∙ omega (arith, length-digits k (n / 10))

pub cmp-append-lt : (a b x y : Bytes) → length a ≡ length b → a ≺ b → (a ++ x) ≺ (b ++ y)
unfolding cmp
cmp-append-lt [] [] x y same lt = cc
cmp-append-lt [] (d ∷ b) x y same lt = absurd (omega arith)
cmp-append-lt (c ∷ a) [] x y same lt = absurd (omega arith)
cmp-append-lt (c ∷ a) (d ∷ b) x y same lt = ground (arith, cmp-append-lt a b x y (omega arith))

pub cmp-append-same : (a x y : Bytes) → cmp (a ++ x) (a ++ y) ≡ cmp x y
unfolding cmp
cmp-append-same [] x y = refl
cmp-append-same (c ∷ a) x y = ground (arith, cmp-append-same a x y)

-- Comparing two numbers from their last digits on.
split_last : (n m : ℕ) → n < m → (n / 10 < m / 10) ⊎ ((n / 10 ≡ m / 10) × (n % 10 < m % 10))
split_last n m lt = elim (Bool-cases (ltb (n / 10) (m / 10))) [
  | inl below ↦ inl (ground (arith, below))
  | inr not ↦ let le : m / 10 ≤ n / 10 = ground (arith, not) in inr (omega arith, omega arith)
]

pub digits-ordered : (k n m : ℕ) → n < m → m < 10 ^ k → digits k n ≺ digits k m
unfolding cmp
digits-ordered zero n m lt hi = absurd (omega arith)
digits-ordered (suc k) n m lt hi =
    let big = pow-suc 10 k in
    elim (split_last n m lt) [
      | inl below ↦
          cmp-append-lt (digits k (n / 10)) (digits k (m / 10)) ((b'0' + n % 10) ∷ [])
            ((b'0' + m % 10) ∷ []) (length-digits k (n / 10) ∙ sym (length-digits k (m / 10)))
            (digits-ordered k (n / 10) (m / 10) below (omega arith))
      | inr (same, below) ↦ rw (same, cmp-append-same) (ground (arith, below))
    ]

read_on-append : (n : ℕ) (a b : Bytes) → read_on n (a ++ b) ≡ read_on (read_on n a) b
read_on-append n [] b = refl
read_on-append n (c ∷ a) b = read_on-append (n * 10 + (c - b'0')) a b

read_on-digits : (k n : ℕ) → HasDigits k n → read_on 0 (digits (suc k) n) ≡ n
read_on-digits zero n h = omega (arith, h)
read_on-digits (suc k) n h =
    read_on-append 0 (digits (suc k) (n / 10)) ((b'0' + n % 10) ∷ [])
    ∙ omega (arith, read_on-digits k (n / 10) h.1)

has_digits : (fuel n : ℕ) → n < fuel → (k : ℕ) × HasDigits k n
has_digits zero n lt = absurd (omega arith)
has_digits (suc fuel) n lt = elim (Bool-cases (ltb n 10)) [
  | inl small ↦ (0, ground (arith, small))
  | inr big ↦
      let large : 10 ≤ n = ground (arith, big) in
      let (k, h) = has_digits fuel (n / 10) (omega arith) in (suc k, (large, h))
]

pub read_on-decimal : (n : ℕ) → read_on 0 (decimal n) ≡ n
read_on-decimal n =
    let (k, h) = has_digits (suc n) n (omega arith) in
    ap (read_on 0) (decimal-digits k n h) ∙ read_on-digits k n h

pub decimal_injective : (n m : ℕ) → decimal n ≡ decimal m → n ≡ m
decimal_injective n m same = sym (read_on-decimal n) ∙ ap (read_on 0) same ∙ read_on-decimal m

All-digits : (k n : ℕ) → All (λ c. c < 128) (digits k n)
All-digits zero n = tt
All-digits (suc k) n =
    All-append (λ c. c < 128) (digits k (n / 10)) ((b'0' + n % 10) ∷ []) (All-digits k (n / 10))
      (omega arith, tt)

-- A decimal number is ASCII.
pub All-decimal : (n : ℕ) → All (λ c. c < 128) (decimal n)
All-decimal n =
    let (k, h) = has_digits (suc n) n (omega arith) in
    rw (decimal-digits k n h) (All-digits (suc k) n)
