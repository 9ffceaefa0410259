-- ===== src/Programs/Governor/Options.antt =====
-- The options of src/governor/main.cpp are read as they are meant.
use memory_aware_governor.Base.{◌≡◌, refl, ◌∙◌, ap, true, false, Option, none, some, List, [], ◌∷◌}
use memory_aware_governor.Base.Double.{Doubles}
use memory_aware_governor.Base.Int.{ℤ}
use memory_aware_governor.Text.{Text, codes, Result, ok, throw, text_eq, show_int}
use memory_aware_governor.Text.Number.{IsInt, stoi-show_int}
use memory_aware_governor.Programs.{exits, uncaught, with_value}
use memory_aware_governor.Programs.Governor.{Settings, set_option, parse_args}

-- An option with its value, as it is meant.
pub data Setting : Type 0 where
  psi_path : Text → Setting
  socket_path : Text → Setting
  poll_interval : ℤ → Setting
  log_level : Text → Setting

abbrev pub InRange : Setting → Type 0
InRange (psi_path x) = Unit {0}
InRange (socket_path x) = Unit {0}
InRange (poll_interval x) = IsInt x
InRange (log_level x) = Unit {0}

abbrev pub AllInRange : List Setting → Type 0
AllInRange [] = Unit {0}
AllInRange (o ∷ os) = InRange o × AllInRange os

abbrev pub option_name : Setting → Text
option_name (psi_path x) = codes "--psi-path"
option_name (socket_path x) = codes "--socket-path"
option_name (poll_interval x) = codes "--poll-interval"
option_name (log_level x) = codes "--log-level"

abbrev pub option_value : Setting → Text
option_value (psi_path x) = x
option_value (socket_path x) = x
option_value (poll_interval x) = show_int x
option_value (log_level x) = x

-- The arguments for some options, in front of others.
abbrev pub arguments : List Setting → List Text → List Text
arguments [] rest = rest
arguments (o ∷ os) rest = option_name o ∷ option_value o ∷ arguments os rest

module _ (d : Doubles) where
  open d use {Double}

  abbrev pub apply : Setting → Settings Double → Settings Double
  apply (psi_path x) s = record s { config = record (s.config) { psi_path = x } }
  apply (socket_path x) s = record s { config = record (s.config) { socket_path = x } }
  apply (poll_interval x) s = record s { config = record (s.config) { poll_interval_ms = x } }
  apply (log_level x) s = record s { log_level = x }

  -- A later option overrides an earlier one.
  abbrev pub apply_all : List Setting → Settings Double → Settings Double
  apply_all [] s = s
  apply_all (o ∷ os) s = apply_all os (apply o s)

  read_option :
      (o : Setting) (s : Settings Double)
      → InRange o
      → set_option d (option_name o) (option_value o) s ≡ some (ok (apply o s))
  read_option (psi_path x) s h = refl
  read_option (socket_path x) s h = refl
  read_option (poll_interval x) s h =
      ap
        (λ (r : Result ℤ).
          some
            (with_value (λ n. record s { config = record (s.config) { poll_interval_ms = n } }) r))
        (stoi-show_int x h)
  read_option (log_level x) s h = refl

  -- The options are read in their order, and the arguments behind them after them.
  pub parse_args-arguments :
      (os : List Setting) (rest : List Text) (s : Settings Double)
      → AllInRange os
      → parse_args d (arguments os rest) s ≡ parse_args d rest (apply_all os s)
  unfolding parse_args
  parse_args-arguments [] rest s h = refl
  parse_args-arguments (o ∷ os) rest s h =
      ap
        (λ (r : Option (Result (Settings Double))). elim r [
          | some (ok s1) ↦ parse_args d (arguments os rest) s1
          | some (throw e) ↦ uncaught e
          | none ↦ elim (text_eq (option_name o) (codes "--help")) [
            | true ↦ exits 0
            | false ↦ parse_args d (option_value o ∷ arguments os rest) s
          ]
        ])
        (read_option o s h.0)
      ∙ parse_args-arguments os rest (apply o s) h.1
