-- ===== src/Programs/Governor.antt =====
-- `main` of src/governor/main.cpp and `DaemonConfig` of include/governor/governor_daemon.h.
pub mod Options
use memory_aware_governor.Base.{
  ℕ, Bool, true, false, Option, none, some, List, [], ◌∷◌, if◌then◌else◌,
}
use memory_aware_governor.Base.Double.{Doubles}
use memory_aware_governor.Base.Int.{ℤ, pos}
use memory_aware_governor.Policy.{TierConfig, default_configs}
use memory_aware_governor.Programs.{Parsed, settings, exits, uncaught, with_value}
use memory_aware_governor.Text.{Text, codes, Result, ok, throw, text_eq, stoi}

pub record DaemonConfig (D : Type 0) : Type 0 where
  pub psi_path : Text
  pub socket_path : Text
  pub poll_interval_ms : ℤ
  pub tier_configs : List (TierConfig D)

-- The two variables that the loop over the arguments sets.
pub record Settings (D : Type 0) : Type 0 where
  pub config : DaemonConfig D
  pub log_level : Text

module _ (d : Doubles) where
  open d use {Double}

  unfoldable pub default_settings : Settings Double
  default_settings = record {
    config = record {
      psi_path = codes "/proc/pressure/memory";
      socket_path = codes "/tmp/mem_governor.sock";
      poll_interval_ms = pos 200;
      tier_configs = default_configs d;
    };
    log_level = codes "info";
  }

  -- The settings after the option `arg` with the value `v`; `none` if `arg` is no such option.
  abbrev pub set_option : Text → Text → Settings Double → Option (Result (Settings Double))
  set_option arg v s =
      if text_eq arg (codes "--psi-path")
      then some (ok (record s { config = record (s.config) { psi_path = v } }))
      else if text_eq arg (codes "--socket-path")
      then some (ok (record s { config = record (s.config) { socket_path = v } }))
      else if text_eq arg (codes "--poll-interval")
      then some (
          with_value (λ n. record s { config = record (s.config) { poll_interval_ms = n } })
            (stoi v))
      else if text_eq arg (codes "--log-level")
      then some (ok (record s { log_level = v }))
      else none

  -- The loop over the arguments. An argument that is not known is passed over, and so is an option
  -- without a value at the end.
  unfoldable pub parse_args : List Text → Settings Double → Parsed (Settings Double)
  parse_args [] s = settings s
  parse_args (arg ∷ []) s = if text_eq arg (codes "--help") then exits 0 else settings s
  parse_args (arg ∷ v ∷ rest) s = elim (set_option arg v s) [
    | some (ok s1) ↦ parse_args rest s1
    | some (throw e) ↦ uncaught e
    | none ↦ elim (text_eq arg (codes "--help")) [
      | true ↦ exits 0
      | false ↦ parse_args (v ∷ rest) s
    ]
  ]
