-- ===== src/Base/Int.antt =====
-- Signed integers over the native numbers: `int` fields such as a debounce count.
use Prim.Native.Nat.{ℕ, ◌+◌, ◌-◌, ◌^◌}
use mathlib.Core.Bool.{Bool, true}
use mathlib.Core.Option.{Option, none, some}
use memory_aware_governor.Base.Tests.{leb, ltb, if◌then◌else◌}

-- `negsuc n` is -(n + 1).
pub data ℤ : Type 0 where
  pos : ℕ → ℤ
  negsuc : ℕ → ℤ

-- `count >= bound` for a count that is not negative.
abbrev pub reached : ℕ → ℤ → Bool
reached count (pos n) = leb n count
reached count (negsuc n) = true

-- `a + b`, without a bound.
abbrev plus : ℤ → ℤ → ℤ
plus (pos a) (pos b) = pos (a + b)
plus (pos a) (negsuc b) = if ltb b a then pos (a - (b + 1)) else negsuc (b - a)
plus (negsuc a) (pos b) = if ltb a b then pos (b - (a + 1)) else negsuc (a - b)
plus (negsuc a) (negsuc b) = negsuc (a + b + 1)

abbrev is_int : ℤ → Bool
is_int (pos n) = ltb n (2 ^ 31)
is_int (negsuc n) = ltb n (2 ^ 31)

-- `a + b` for two numbers of type `int`; `none` for an overflow, which has no defined result.
abbrev pub add_int : ℤ → ℤ → Option ℤ
add_int a b = if is_int (plus a b) then some (plus a b) else none
