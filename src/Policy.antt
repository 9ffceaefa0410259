-- ===== src/Policy.antt =====
-- `PolicyEngine` of include/governor/policy_engine.h and src/governor/policy_engine.cpp.
--
-- A tier is an enumeration over `int`, so a configuration with more than four entries leads to
-- tiers without a name: `unnamed n` is the value n + 4. `configs_[i]` out of range is undefined in
-- the source: here the result is `none`. The counters are numbers without a bound: an overflow of
-- their type `int` is not modelled.
pub mod Step
pub mod Transition
pub mod Invariant
pub mod Polls
pub mod Debounce
pub mod Conflict
pub mod Counting
pub mod History
pub mod Reach
use memory_aware_governor.Base.{
  ℕ, zero, suc, ◌+◌, ◌-◌, Bool, true, false, ◌&&◌, ◌||◌, Option, none, some, List, [], ◌∷◌, ltb,
  ◌==◌, if◌then◌else◌, ◌>>=◌, length, get_elem?,
}
use memory_aware_governor.Base.Double.{Doubles}
use memory_aware_governor.Base.Int.{ℤ, pos, reached}
use memory_aware_governor.Psi.{PsiData}
use Prim.Native.String.{String}
use mathlib.Core.Bool.{not}

pub data PressureTier : Type 0 where
  normal elevated high critical : PressureTier
  unnamed : ℕ → PressureTier

-- `static_cast<int>(tier)`
abbrev pub to_int : PressureTier → ℕ
to_int normal = 0
to_int elevated = 1
to_int high = 2
to_int critical = 3
to_int (unnamed n) = suc (suc (suc (suc n)))

-- `static_cast<PressureTier>(i)`
abbrev pub of_int : ℕ → PressureTier
of_int zero = normal
of_int (suc zero) = elevated
of_int (suc (suc zero)) = high
of_int (suc (suc (suc zero))) = critical
of_int (suc (suc (suc (suc n)))) = unnamed n

pub record TierConfig (D : Type 0) : Type 0 where
  pub promote_threshold : D
  pub demote_threshold : D
  pub debounce_polls : ℤ
  pub shrink_pct : D

-- `PolicyAction::Type`
pub data ActionType : Type 0 where
  nothing shrink grow : ActionType

pub record PolicyAction (D : Type 0) : Type 0 where
  pub type : ActionType
  pub fraction : D
  pub new_tier : PressureTier

-- The fields of the class `PolicyEngine`.
pub record Engine (D : Type 0) : Type 0 where
  pub configs : List (TierConfig D)
  pub current_tier : PressureTier
  pub consecutive_promote_polls : ℕ
  pub consecutive_demote_polls : ℕ

unfoldable pub get_tier_name : PressureTier → String
get_tier_name normal = "NORMAL"
get_tier_name elevated = "ELEVATED"
get_tier_name high = "HIGH"
get_tier_name critical = "CRITICAL"
get_tier_name (unnamed n) = "UNKNOWN"

module _ (d : Doubles) where
  open d use {Double, literal, ge, lt}

  unfoldable pub default_configs : List (TierConfig Double)
  default_configs =
      record {
        promote_threshold = literal 500;
        demote_threshold = literal 0;
        debounce_polls = pos 3;
        shrink_pct = literal 0;
      }
      ∷ record {
        promote_threshold = literal 500;
        demote_threshold = literal 200;
        debounce_polls = pos 3;
        shrink_pct = literal 10;
      }
      ∷ record {
        promote_threshold = literal 1500;
        demote_threshold = literal 800;
        debounce_polls = pos 3;
        shrink_pct = literal 25;
      }
      ∷ record {
        promote_threshold = literal 3000;
        demote_threshold = literal 1500;
        debounce_polls = pos 2;
        shrink_pct = literal 50;
      }
      ∷ []

  -- The constructor: no configuration stands for the default ones.
  unfoldable pub choose_configs : List (TierConfig Double) → List (TierConfig Double)
  unfolding default_configs
  choose_configs [] = default_configs
  choose_configs (c ∷ cs) = c ∷ cs

  unfoldable pub new_engine : List (TierConfig Double) → Engine Double
  unfolding choose_configs
  new_engine cs = record {
    configs = choose_configs cs;
    current_tier = normal;
    consecutive_promote_polls = 0;
    consecutive_demote_polls = 0;
  }

  unfoldable pub reset : Engine Double → Engine Double
  reset e = record e {
    current_tier = normal;
    consecutive_promote_polls = 0;
    consecutive_demote_polls = 0;
  }

  -- The condition of the promotion check, from the current tier's index.
  unfoldable pub promote_condition :
      List (TierConfig Double) → ℕ → TierConfig Double → PsiData Double → Option Bool
  promote_condition configs current_idx next_config data_ =
      let above = ge data_.some_avg10 next_config.promote_threshold in
      if suc current_idx == to_int critical
      then (do
        current ← get_elem? configs current_idx
        some (above || ge data_.some_avg60 current.promote_threshold))
      else some above

  -- The branch of the promotion check where its condition holds.
  unfoldable pub promote :
      ℕ
      → TierConfig Double
      → Engine Double
      → PolicyAction Double
      → Engine Double × PolicyAction Double × Bool
  promote next_idx next_config e action =
      let count = e.consecutive_promote_polls + 1 in
      if reached count next_config.debounce_polls
      then (
        record e {
          current_tier = of_int next_idx;
          consecutive_promote_polls = 0;
          consecutive_demote_polls = 0;
        },
        record { type = shrink; fraction = next_config.shrink_pct; new_tier = of_int next_idx },
        true,
      )
      else (
        record e { consecutive_promote_polls = count; consecutive_demote_polls = 0 },
        action,
        false,
      )

  -- "Promotion check": the engine, the action, and the flag `promoted`.
  unfoldable pub promotion_check :
      ℕ
      → Engine Double
      → PolicyAction Double
      → PsiData Double
      → Option (Engine Double × PolicyAction Double × Bool)
  promotion_check current_idx e action data_ =
      if ltb (suc current_idx) (length e.configs)
      then (do
        next_config ← get_elem? e.configs (suc current_idx)
        holds ← promote_condition e.configs current_idx next_config data_
        some (
            if holds
            then promote (suc current_idx) next_config e action
            else (record e { consecutive_promote_polls = 0 }, action, false)))
      else some (e, action, false)

  -- The branch of the demotion check where its condition holds.
  unfoldable pub demote :
      ℕ
      → TierConfig Double
      → Engine Double
      → PolicyAction Double
      → Engine Double × PolicyAction Double
  demote current_idx curr_config e action =
      let count = e.consecutive_demote_polls + 1 in
      if reached count curr_config.debounce_polls
      then (
        record e {
          current_tier = of_int (current_idx - 1);
          consecutive_promote_polls = 0;
          consecutive_demote_polls = 0;
        },
        record {
          type = grow;
          fraction = curr_config.shrink_pct;
          new_tier = of_int (current_idx - 1);
        },
      )
      else (record e { consecutive_promote_polls = 0; consecutive_demote_polls = count }, action)

  -- "Demotion check (only if we did not just promote)"
  unfoldable pub demotion_check :
      ℕ
      → Bool
      → Engine Double
      → PolicyAction Double
      → PsiData Double
      → Option (Engine Double × PolicyAction Double)
  demotion_check current_idx promoted e action data_ =
      if not promoted && ltb 0 current_idx
      then (do
        curr_config ← get_elem? e.configs current_idx
        some (
            if lt data_.some_avg10 curr_config.demote_threshold
            then demote current_idx curr_config e action
            else (record e { consecutive_demote_polls = 0 }, action)))
      else some (e, action)

  -- The action that `evaluate` starts from.
  abbrev pub no_action : PressureTier → PolicyAction Double
  no_action tier = record { type = nothing; fraction = literal 0; new_tier = tier }

  unfoldable pub evaluate :
      Engine Double → PsiData Double → Option (Engine Double × PolicyAction Double)
  evaluate e data_ = do
    let action = no_action e.current_tier
    let current_idx = to_int e.current_tier
    (e1, action1, promoted) ← promotion_check current_idx e action data_
    demotion_check current_idx promoted e1 action1 data_
