-- ===== src/Programs.antt =====
-- The command lines of the three programs. The arguments are those behind the name of the program.
pub mod Governor
pub mod Generator
pub mod CacheApp
pub mod Arguments
use memory_aware_governor.Base.{ℕ, List, [], ◌∷◌}
use memory_aware_governor.Text.{Text, Error, Result, ok, throw}

-- How the reading of a command line ends: with the settings, with an exit code, or with an exception
-- of a conversion, which nothing catches.
pub data Parsed (C : Type 0) : Type 0 where
  settings : C → Parsed C
  exits : ℕ → Parsed C
  uncaught : Error → Parsed C

-- The settings with a value that was converted.
abbrev pub with_value : {A C : Type 0} → (A → C) → Result A → Result C
with_value set (ok a) = ok (set a)
with_value set (throw e) = throw e
