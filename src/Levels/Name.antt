-- ===== src/Levels/Name.antt =====
-- The names of SSTable files: `format!("l0_{unique_suffix}.sst")`, and the same for `l1_`.
use via_tabula.Base.{ℕ, zero, suc, ◌+◌, ◌/◌, ◌%◌, [], ◌∷◌, ◌++◌, if◌then◌else◌, ltb}
use via_tabula.Base.Bytes.{Bytes}

-- A number in decimal; one digit is written in each round.
unfoldable pub decimal_loop : ℕ → ℕ → Bytes → Bytes
decimal_loop zero n digits = digits
decimal_loop (suc fuel) n digits =
    let more = decimal_loop fuel (n / 10) ((b'0' + n % 10) ∷ digits) in
    if ltb n 10 then (b'0' + n) ∷ digits else more

unfoldable pub decimal : ℕ → Bytes
unfolding decimal_loop
decimal n = decimal_loop (suc n) n []

abbrev pub sst : Bytes
sst = b'.' ∷ b's' ∷ b's' ∷ b't' ∷ []

-- `level` is the digit in the name.
unfoldable pub table_name : ℕ → ℕ → Bytes
unfolding decimal
table_name level unique_suffix = b'l' ∷ level ∷ b'_' ∷ (decimal unique_suffix ++ sst)
