-- ===== src/Tests.antt =====
-- Tests and the theorems at concrete inputs. Floating point numbers are counted in hundredths here.
mod Lru
mod Policy
mod Protocol
mod Registry
mod Client
mod Governed
mod Daemon
mod Psi
mod Pressure
mod System
mod Programs
mod Workload
mod Exit
use memory_aware_governor.Base.{ℕ, ◌+◌, ◌-◌, ◌*◌, ◌/◌, ltb, leb}
use memory_aware_governor.Base.Int.{ℤ, pos, negsuc}
use memory_aware_governor.Base.Double.{Doubles}

-- There is no number below zero.
abbrev hundredths_of : ℤ → ℕ
hundredths_of (pos n) = n * 100
hundredths_of (negsuc n) = 0

abbrev pub hundredths : Doubles
hundredths = record {
  Double = ℕ;
  literal = λ n. n;
  ge = λ a b. leb b a;
  lt = ltb;
  add = ◌+◌;
  sub = ◌-◌;
  mul = λ a b. a * b / 100;
  div = λ a b. a * 100 / b;
  of_int = hundredths_of;
  of_u64 = λ n. n * 100;
  to_u64 = λ a. a / 100;
}
