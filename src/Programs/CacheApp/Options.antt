-- ===== src/Programs/CacheApp/Options.antt =====
-- The options of src/cache_app/main.cpp are read as they are meant.
use memory_aware_governor.Base.{ℕ, ◌<◌, ◌≡◌, refl, ◌∙◌, ap, Option, none, some, List, [], ◌∷◌, u64}
use memory_aware_governor.Base.Double.{Doubles}
use memory_aware_governor.Text.{Text, codes, Result, ok, throw, show}
use memory_aware_governor.Text.Number.{stoull-show}
use memory_aware_governor.Programs.{uncaught, with_value}
use memory_aware_governor.Psi.Rendered.{Decimal}
use memory_aware_governor.Programs.CacheApp.{Config, set_option, no_option, parse_args}

module _ (d : Doubles) (stod : Text → Result (d.Double)) where
  open d use {Double}

  -- An option with its value, as it is meant.
  pub data Setting : Type 0 where
    capacity : ℕ → Setting
    entry_size : ℕ → Setting
    zipf_skew : Decimal d stod → Setting
    key_space : ℕ → Setting
    ops_per_sec : ℕ → Setting
    duration_sec : ℕ → Setting
    socket_path : Text → Setting
    report_interval : ℕ → Setting

  abbrev pub InRange : Setting → Type 0
  InRange (capacity x) = x < u64
  InRange (entry_size x) = x < u64
  InRange (zipf_skew x) = Unit {0}
  InRange (key_space x) = x < u64
  InRange (ops_per_sec x) = x < u64
  InRange (duration_sec x) = x < u64
  InRange (socket_path x) = Unit {0}
  InRange (report_interval x) = x < u64

  abbrev pub AllInRange : List Setting → Type 0
  AllInRange [] = Unit {0}
  AllInRange (o ∷ os) = InRange o × AllInRange os

  abbrev pub option_name : Setting → Text
  option_name (capacity x) = codes "--capacity"
  option_name (entry_size x) = codes "--entry-size"
  option_name (zipf_skew x) = codes "--zipf-skew"
  option_name (key_space x) = codes "--key-space"
  option_name (ops_per_sec x) = codes "--ops-per-sec"
  option_name (duration_sec x) = codes "--duration"
  option_name (socket_path x) = codes "--socket-path"
  option_name (report_interval x) = codes "--report-interval"

  abbrev pub option_value : Setting → Text
  option_value (capacity x) = show x
  option_value (entry_size x) = show x
  option_value (zipf_skew x) = x.text
  option_value (key_space x) = show x
  option_value (ops_per_sec x) = show x
  option_value (duration_sec x) = show x
  option_value (socket_path x) = x
  option_value (report_interval x) = show x

  -- The arguments for some options, in front of others.
  abbrev pub arguments : List Setting → List Text → List Text
  arguments [] rest = rest
  arguments (o ∷ os) rest = option_name o ∷ option_value o ∷ arguments os rest

  abbrev pub apply : Setting → Config Double → Config Double
  apply (capacity x) s = record s { capacity = x }
  apply (entry_size x) s = record s { entry_size = x }
  apply (zipf_skew x) s = record s { zipf_skew = x.value }
  apply (key_space x) s = record s { key_space = x }
  apply (ops_per_sec x) s = record s { ops_per_sec = x }
  apply (duration_sec x) s = record s { duration_sec = x }
  apply (socket_path x) s = record s { socket_path = x }
  apply (report_interval x) s = record s { report_interval = x }

  -- A later option overrides an earlier one.
  abbrev pub apply_all : List Setting → Config Double → Config Double
  apply_all [] s = s
  apply_all (o ∷ os) s = apply_all os (apply o s)

  read_option :
      (o : Setting) (s : Config Double)
      → InRange o
      → set_option d stod (option_name o) (option_value o) s ≡ some (ok (apply o s))
  read_option (capacity x) s h =
      ap (λ (r : Result ℕ). some (with_value (λ n. record s { capacity = n }) r)) (stoull-show x h)
  read_option (entry_size x) s h =
      ap (λ (r : Result ℕ). some (with_value (λ n. record s { entry_size = n }) r))
        (stoull-show x h)
  read_option (zipf_skew x) s h =
      ap (λ (r : Result Double). some (with_value (λ n. record s { zipf_skew = n }) r)) (x.reads)
  read_option (key_space x) s h =
      ap (λ (r : Result ℕ). some (with_value (λ n. record s { key_space = n }) r)) (stoull-show x h)
  read_option (ops_per_sec x) s h =
      ap (λ (r : Result ℕ). some (with_value (λ n. record s { ops_per_sec = n }) r))
        (stoull-show x h)
  read_option (duration_sec x) s h =
      ap (λ (r : Result ℕ). some (with_value (λ n. record s { duration_sec = n }) r))
        (stoull-show x h)
  read_option (socket_path x) s h = refl
  read_option (report_interval x) s h =
      ap (λ (r : Result ℕ). some (with_value (λ n. record s { report_interval = n }) r))
        (stoull-show x h)

  -- The options are read in their order, and the arguments behind them after them.
  pub parse_args-arguments :
      (os : List Setting) (rest : List Text) (s : Config Double)
      → AllInRange os
      → parse_args d stod (arguments os rest) s ≡ parse_args d stod rest (apply_all os s)
  unfolding parse_args
  parse_args-arguments [] rest s h = refl
  parse_args-arguments (o ∷ os) rest s h =
      ap
        (λ (r : Option (Result (Config Double))). elim r [
          | some (ok s1) ↦ parse_args d stod (arguments os rest) s1
          | some (throw e) ↦ uncaught e
          | none ↦ no_option d stod (option_name o)
        ])
        (read_option o s h.0)
      ∙ parse_args-arguments os rest (apply o s) h.1
