-- ===== src/Programs/Generator.antt =====
-- The command line of src/pressure_gen/main.cpp.
pub mod Options
use memory_aware_governor.Base.{
  ℕ, Bool, true, false, Option, none, some, List, [], ◌∷◌, if◌then◌else◌,
}
use memory_aware_governor.Base.Int.{ℤ, pos}
use memory_aware_governor.Programs.{Parsed, settings, exits, uncaught, with_value}
use memory_aware_governor.Text.{Text, codes, Result, ok, throw, text_eq, stoi, stoull}

-- The variables of `main` that the arguments set.
pub record Settings : Type 0 where
  pub mode : Text
  pub max_mb : ℕ
  pub duration : ℤ
  pub ramp_time : ℤ
  pub hold_time : ℤ
  pub release_time : ℤ
  pub wave_period : ℤ
  pub touch_pages : Bool

unfoldable pub default_settings : Settings
default_settings = record {
  mode = codes "ramp";
  max_mb = 512;
  duration = pos 30;
  ramp_time = pos 10;
  hold_time = pos 10;
  release_time = pos 10;
  wave_period = pos 20;
  touch_pages = true;
}

-- The settings after the option `arg` with the value `v`; `none` if `arg` is no such option.
abbrev pub set_option : Text → Text → Settings → Option (Result Settings)
set_option arg v s =
    if text_eq arg (codes "--mode")
    then some (ok (record s { mode = v }))
    else if text_eq arg (codes "--max-mb")
    then some (with_value (λ n. record s { max_mb = n }) (stoull v))
    else if text_eq arg (codes "--duration")
    then some (with_value (λ n. record s { duration = n }) (stoi v))
    else if text_eq arg (codes "--ramp-time")
    then some (with_value (λ n. record s { ramp_time = n }) (stoi v))
    else if text_eq arg (codes "--hold-time")
    then some (with_value (λ n. record s { hold_time = n }) (stoi v))
    else if text_eq arg (codes "--release-time")
    then some (with_value (λ n. record s { release_time = n }) (stoi v))
    else if text_eq arg (codes "--wave-period")
    then some (with_value (λ n. record s { wave_period = n }) (stoi v))
    else if text_eq arg (codes "--touch-pages")
    then some (ok (record s { touch_pages = text_eq v (codes "true") }))
    else none

-- The exit code for an argument that is no option with a value.
abbrev pub no_option : Text → Parsed Settings
no_option arg = if text_eq arg (codes "--help") then exits 0 else exits 1

-- The loop over the arguments.
unfoldable pub parse_args : List Text → Settings → Parsed Settings
parse_args [] s = settings s
parse_args (arg ∷ []) s = no_option arg
parse_args (arg ∷ v ∷ rest) s = elim (set_option arg v s) [
  | some (ok s1) ↦ parse_args rest s1
  | some (throw e) ↦ uncaught e
  | none ↦ no_option arg
]
