-- ===== src/Bloom/Arith.antt =====
-- The f64 operations that `BloomFilter::new` calls. The language has no floating-point numbers here,
-- so they are a parameter; the laws are those that the filter's safety rests on.
use via_tabula.Base.{ℕ}

pub record Floats : Type 1 where
  pub F : Type 0
  pub of_usize : ℕ → F
  pub neg : F → F
  pub mul : F → F → F
  pub div : F → F → F
  pub ln : F → F
  pub ln_2 : F
  pub powi : F → ℕ → F
  pub ceil_usize : F → ℕ
  pub round_usize : F → ℕ
  -- the literal 0.01 of `SsTableWriter::new`
  pub one_percent : F
