-- ===== src/Prelude/Float.antt =====
-- Python's floats, as far as the program compares and formats them. Their arithmetic is that of the
-- machine: a type with its comparisons is a parameter of what uses it.
use Prim.Native.Nat.{ℕ}
use Prim.Native.String.{String}
use mathlib.Core.Bool.{Bool}

pub record Floats : Type 1 where
  pub Value : Type 0
  -- `a < b` and `a >= b`; both are false at a NaN
  pub less : Value → Value → Bool
  pub at_least : Value → Value → Bool
  -- `f"{a:.{n}f}"`
  pub format : ℕ → Value → String
