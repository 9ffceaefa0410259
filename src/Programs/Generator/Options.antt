-- ===== src/Programs/Generator/Options.antt =====
-- The options of src/pressure_gen/main.cpp are read as they are meant.
use memory_aware_governor.Base.{
  ℕ, ◌<◌, ◌≡◌, refl, ◌∙◌, ap, Bool, true, false, Option, none, some, List, [], ◌∷◌, u64,
}
use memory_aware_governor.Base.Int.{ℤ}
use memory_aware_governor.Text.{Text, codes, Result, ok, throw, show, show_int}
use memory_aware_governor.Text.Number.{IsInt, stoi-show_int, stoull-show}
use memory_aware_governor.Programs.{uncaught, with_value}
use memory_aware_governor.Programs.Generator.{Settings, set_option, no_option, parse_args}

abbrev flag_text : Bool → Text
flag_text true = codes "true"
flag_text false = codes "false"

-- An option with its value, as it is meant.
pub data Setting : Type 0 where
  mode : Text → Setting
  max_mb : ℕ → Setting
  duration : ℤ → Setting
  ramp_time : ℤ → Setting
  hold_time : ℤ → Setting
  release_time : ℤ → Setting
  wave_period : ℤ → Setting
  touch_pages : Bool → Setting

abbrev pub InRange : Setting → Type 0
InRange (mode x) = Unit {0}
InRange (max_mb x) = x < u64
InRange (duration x) = IsInt x
InRange (ramp_time x) = IsInt x
InRange (hold_time x) = IsInt x
InRange (release_time x) = IsInt x
InRange (wave_period x) = IsInt x
InRange (touch_pages x) = Unit {0}

abbrev pub AllInRange : List Setting → Type 0
AllInRange [] = Unit {0}
AllInRange (o ∷ os) = InRange o × AllInRange os

abbrev pub option_name : Setting → Text
option_name (mode x) = codes "--mode"
option_name (max_mb x) = codes "--max-mb"
option_name (duration x) = codes "--duration"
option_name (ramp_time x) = codes "--ramp-time"
option_name (hold_time x) = codes "--hold-time"
option_name (release_time x) = codes "--release-time"
option_name (wave_period x) = codes "--wave-period"
option_name (touch_pages x) = codes "--touch-pages"

abbrev pub option_value : Setting → Text
option_value (mode x) = x
option_value (max_mb x) = show x
option_value (duration x) = show_int x
option_value (ramp_time x) = show_int x
option_value (hold_time x) = show_int x
option_value (release_time x) = show_int x
option_value (wave_period x) = show_int x
option_value (touch_pages x) = flag_text x

-- The arguments for some options, in front of others.
abbrev pub arguments : List Setting → List Text → List Text
arguments [] rest = rest
arguments (o ∷ os) rest = option_name o ∷ option_value o ∷ arguments os rest

abbrev pub apply : Setting → Settings → Settings
apply (mode x) s = record s { mode = x }
apply (max_mb x) s = record s { max_mb = x }
apply (duration x) s = record s { duration = x }
apply (ramp_time x) s = record s { ramp_time = x }
apply (hold_time x) s = record s { hold_time = x }
apply (release_time x) s = record s { release_time = x }
apply (wave_period x) s = record s { wave_period = x }
apply (touch_pages x) s = record s { touch_pages = x }

-- A later option overrides an earlier one.
abbrev pub apply_all : List Setting → Settings → Settings
apply_all [] s = s
apply_all (o ∷ os) s = apply_all os (apply o s)

flag_read :
    (x : Bool) (s : Settings)
    → set_option (codes "--touch-pages") (flag_text x) s ≡ some (ok (record s { touch_pages = x }))
flag_read true s = refl
flag_read false s = refl

read_option :
    (o : Setting) (s : Settings)
    → InRange o
    → set_option (option_name o) (option_value o) s ≡ some (ok (apply o s))
read_option (mode x) s h = refl
read_option (max_mb x) s h =
    ap (λ (r : Result ℕ). some (with_value (λ n. record s { max_mb = n }) r)) (stoull-show x h)
read_option (duration x) s h =
    ap (λ (r : Result ℤ). some (with_value (λ n. record s { duration = n }) r)) (stoi-show_int x h)
read_option (ramp_time x) s h =
    ap (λ (r : Result ℤ). some (with_value (λ n. record s { ramp_time = n }) r)) (stoi-show_int x h)
read_option (hold_time x) s h =
    ap (λ (r : Result ℤ). some (with_value (λ n. record s { hold_time = n }) r)) (stoi-show_int x h)
read_option (release_time x) s h =
    ap (λ (r : Result ℤ). some (with_value (λ n. record s { release_time = n }) r))
      (stoi-show_int x h)
read_option (wave_period x) s h =
    ap (λ (r : Result ℤ). some (with_value (λ n. record s { wave_period = n }) r))
      (stoi-show_int x h)
read_option (touch_pages x) s h = flag_read x s

-- The options are read in their order, and the arguments behind them after them.
pub parse_args-arguments :
    (os : List Setting) (rest : List Text) (s : Settings)
    → AllInRange os
    → parse_args (arguments os rest) s ≡ parse_args rest (apply_all os s)
unfolding parse_args
parse_args-arguments [] rest s h = refl
parse_args-arguments (o ∷ os) rest s h =
    ap
      (λ (r : Option (Result (Settings))). elim r [
        | some (ok s1) ↦ parse_args (arguments os rest) s1
        | some (throw e) ↦ uncaught e
        | none ↦ no_option (option_name o)
      ])
      (read_option o s h.0)
    ∙ parse_args-arguments os rest (apply o s) h.1
