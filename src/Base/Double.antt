-- ===== src/Base/Double.antt =====
-- Floating point numbers as the program uses them. The type and its operations are a parameter:
-- nothing is assumed of them here, and a theorem names the facts that it rests on.
use Prim.Native.Nat.{ℕ}
use mathlib.Core.Bool.{Bool}
use memory_aware_governor.Base.Int.{ℤ}

pub record Doubles : Type 1 where
  pub Double : Type 0
  -- The literal `n / 100`, such as `0.25` for 25.
  pub literal : ℕ → Double
  -- `a >= b` and `a < b`; both are false if one side is not a number.
  pub ge : Double → Double → Bool
  pub lt : Double → Double → Bool
  pub add : Double → Double → Double
  pub sub : Double → Double → Double
  pub mul : Double → Double → Double
  pub div : Double → Double → Double
  -- The conversion from `int`, and those from and to `uint64_t`.
  pub of_int : ℤ → Double
  pub of_u64 : ℕ → Double
  pub to_u64 : Double → ℕ
