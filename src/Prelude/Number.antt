-- ===== src/Prelude/Number.antt =====
-- JavaScript's double-precision numbers are not modelled: the code that computes with them takes
-- them as this interface.
use mathlib.Core.Bool.{Bool}
use solana_kit_plugins.Prelude.Int.{ℤ}

pub record Number : Type 1 where
  pub Float : Type 0
  -- Number(n) of a bigint or an integer
  pub of_int : ℤ → Float
  -- a * b, a / b, a + b, a - b
  pub mul : Float → Float → Float
  pub quot : Float → Float → Float
  pub add : Float → Float → Float
  pub sub : Float → Float → Float
  -- Math.pow(10, e)
  pub pow10 : ℤ → Float
  -- a < b
  pub lt : Float → Float → Bool
