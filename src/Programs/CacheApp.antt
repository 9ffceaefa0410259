-- ===== src/Programs/CacheApp.antt =====
-- The command line of src/cache_app/main.cpp. `std::stod` is a parameter.
pub mod Options
pub mod Workload
pub mod Session
pub mod Operation
pub mod Threads
pub mod Main
use memory_aware_governor.Base.{
  ℕ, Bool, true, false, ◌||◌, Option, none, some, List, [], ◌∷◌, if◌then◌else◌,
}
use memory_aware_governor.Base.Double.{Doubles}
use memory_aware_governor.Programs.{Parsed, settings, exits, uncaught, with_value}
use memory_aware_governor.Text.{Text, codes, Result, ok, throw, text_eq, stoull}

pub record Config (D : Type 0) : Type 0 where
  pub capacity : ℕ
  pub entry_size : ℕ
  pub zipf_skew : D
  pub key_space : ℕ
  pub ops_per_sec : ℕ
  pub duration_sec : ℕ
  pub socket_path : Text
  pub report_interval : ℕ

module _ (d : Doubles) where
  open d use {Double, literal}

  unfoldable pub default_config : Config Double
  default_config = record {
    capacity = 100000;
    entry_size = 256;
    zipf_skew = literal 99;
    key_space = 500000;
    ops_per_sec = 10000;
    duration_sec = 60;
    socket_path = codes "/tmp/mem_governor.sock";
    report_interval = 1;
  }

  module _ (stod : Text → Result Double) where
    -- The configuration after the option `arg` with the value `v`; `none` if `arg` is no such option.
    abbrev pub set_option : Text → Text → Config Double → Option (Result (Config Double))
    set_option arg v c =
        if text_eq arg (codes "--capacity")
        then some (with_value (λ n. record c { capacity = n }) (stoull v))
        else if text_eq arg (codes "--entry-size")
        then some (with_value (λ n. record c { entry_size = n }) (stoull v))
        else if text_eq arg (codes "--zipf-skew")
        then some (with_value (λ x. record c { zipf_skew = x }) (stod v))
        else if text_eq arg (codes "--key-space")
        then some (with_value (λ n. record c { key_space = n }) (stoull v))
        else if text_eq arg (codes "--ops-per-sec")
        then some (with_value (λ n. record c { ops_per_sec = n }) (stoull v))
        else if text_eq arg (codes "--duration")
        then some (with_value (λ n. record c { duration_sec = n }) (stoull v))
        else if text_eq arg (codes "--socket-path")
        then some (ok (record c { socket_path = v }))
        else if text_eq arg (codes "--report-interval")
        then some (with_value (λ n. record c { report_interval = n }) (stoull v))
        else none

    -- The exit code for an argument that is no option with a value: 0 for `--help`, 1 for an option
    -- without its value and for any other.
    abbrev pub no_option : Text → Parsed (Config Double)
    no_option arg = if text_eq arg (codes "--help") then exits 0 else exits 1

    -- The loop over the arguments.
    unfoldable pub parse_args : List Text → Config Double → Parsed (Config Double)
    parse_args [] c = settings c
    parse_args (arg ∷ []) c = no_option arg
    parse_args (arg ∷ v ∷ rest) c = elim (set_option arg v c) [
      | some (ok c1) ↦ parse_args rest c1
      | some (throw e) ↦ uncaught e
      | none ↦ no_option arg
    ]
