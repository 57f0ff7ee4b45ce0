-- ===== src/Prelude/Floats.antt =====
-- float64, which the program uses for prices: the type and the operations that it calls are
-- parameters, with no law assumed of the rounding arithmetic.
use zentora_backend.Prelude.Int.{ℤ}
use mathlib.Core.Bool.{Bool}

pub record Floats (F : Type 0) : Type 0 where
  pub of_int : ℤ → F
  pub add : F → F → F
  pub mul : F → F → F
  pub div : F → F → F
  pub lt : F → F → Bool
