-- ===== src/Tests/Policy.antt =====
-- `PolicyEngine` of src/governor/policy_engine.cpp with its default configurations.
use memory_aware_governor.Base.{ℕ, ◌≡◌, refl, some, [], ◌∷◌, ◌++◌, arith}
use memory_aware_governor.Policy.{
  normal, elevated, high, TierConfig, shrink, Engine, default_configs, choose_configs, new_engine,
  reset, no_action, promote_condition, promote, promotion_check, demote, demotion_check, evaluate,
}
use memory_aware_governor.Policy.Conflict.{conflict_stays}
use memory_aware_governor.Policy.Debounce.{rises_after_debounce, falls_after_debounce}
use memory_aware_governor.Policy.History.{History, start, ByStreak, shrink_needs_streak}
use memory_aware_governor.Policy.Invariant.{Polled, evaluate-Change, new_engine-IsEngine}
use memory_aware_governor.Policy.Polls.{run_polls, quiet, risen, fallen, shrink_order, grow_order}
use memory_aware_governor.Policy.Reach.{Reached, created, polled, was_reset, reached_answers}
use memory_aware_governor.Policy.Transition.{IsEngine}
use memory_aware_governor.Psi.{PsiData}
use memory_aware_governor.Base.Int.{pos}
use memory_aware_governor.Tests.{hundredths}

program : Unit {0}
unfolding default_configs choose_configs new_engine reset promote_condition promote promotion_check
    demote demotion_check evaluate run_polls
program = tt

abbrev calm : PsiData ℕ
calm = record {
  some_avg10 = 0;
  some_avg60 = 0;
  some_avg300 = 0;
  some_total = 0;
  full_avg10 = 0;
  full_avg60 = 0;
  full_avg300 = 0;
  full_total = 0;
}

abbrev poll : ℕ → ℕ → PsiData ℕ
poll avg10 avg60 = record calm { some_avg10 = avg10; some_avg60 = avg60 }

abbrev engine : Engine ℕ
engine = new_engine hundredths []

-- The test `test_full_escalation_and_recovery` up to the tier HIGH: six percent, then sixteen.
escalation :
    run_polls hundredths engine
      (poll 600 0 ∷ poll 600 0 ∷ poll 600 0 ∷ poll 1600 0 ∷ poll 1600 0 ∷ poll 1600 0 ∷ [])
    ≡ some (
      record engine { current_tier = high },
      quiet hundredths normal (calm ∷ calm ∷ [])
          ++ record { type = shrink; fraction = 10; new_tier = elevated }
            ∷ quiet hundredths elevated (calm ∷ calm ∷ [])
          ++ record { type = shrink; fraction = 25; new_tier = high } ∷ [],
    )
unfolding program
escalation = refl

evaluate-Change_example : Polled hundredths engine (poll 600 0)
evaluate-Change_example =
    evaluate-Change hundredths engine (poll 600 0) (new_engine-IsEngine hundredths [])

abbrev c0 : TierConfig ℕ
c0 = record {
  promote_threshold = 500;
  demote_threshold = 0;
  debounce_polls = pos 3;
  shrink_pct = 0;
}

abbrev c1 : TierConfig ℕ
c1 = record c0 { demote_threshold = 200; shrink_pct = 10 }

abbrev c2 : TierConfig ℕ
c2 = record {
  promote_threshold = 1500;
  demote_threshold = 800;
  debounce_polls = pos 3;
  shrink_pct = 25;
}

abbrev c3 : TierConfig ℕ
c3 = record {
  promote_threshold = 3000;
  demote_threshold = 1500;
  debounce_polls = pos 2;
  shrink_pct = 50;
}

abbrev in_high : Engine ℕ
in_high = record {
  configs = c0 ∷ c1 ∷ c2 ∷ c3 ∷ [];
  current_tier = high;
  consecutive_promote_polls = 0;
  consecutive_demote_polls = 0;
}

in_high-IsEngine : IsEngine hundredths in_high
in_high-IsEngine = ground arith

rises_after_debounce_example :
    run_polls hundredths in_high (poll 3100 0 ∷ poll 900 1500 ∷ [])
    ≡ some (
      risen hundredths in_high,
      quiet hundredths high (poll 3100 0 ∷ []) ++ shrink_order hundredths in_high c3 ∷ [],
    )
rises_after_debounce_example =
    rises_after_debounce hundredths in_high c2 c3 (poll 3100 0 ∷ []) (poll 900 1500) refl refl refl
      ((refl, refl), tt) refl

falls_after_debounce_example :
    run_polls hundredths in_high (poll 700 0 ∷ poll 600 1400 ∷ poll 0 0 ∷ [])
    ≡ some (
      fallen hundredths in_high,
      quiet hundredths high (poll 700 0 ∷ poll 600 1400 ∷ [])
          ++ grow_order hundredths c2 in_high ∷ [],
    )
falls_after_debounce_example =
    falls_after_debounce hundredths in_high c2 (poll 700 0 ∷ poll 600 1400 ∷ []) (poll 0 0) refl
      (omega arith) refl (((λ n e. ground arith), refl), (((λ n e. ground arith), refl), tt))
      (λ n e. ground arith, refl)

-- The pressure of the last ten seconds is gone, but the minute before it is still in `avg60`.
conflict_stays_example :
    (e : Engine ℕ) × (run_polls hundredths in_high
        (poll 0 1600 ∷ poll 0 1550 ∷ poll 0 1500 ∷ poll 0 1500 ∷ [])
      ≡ some (e, quiet hundredths high (calm ∷ calm ∷ calm ∷ calm ∷ [])))
    × (e.current_tier ≡ high)
    × (e.configs ≡ in_high.configs)
conflict_stays_example =
    conflict_stays hundredths in_high c2 c3
      (poll 0 1600 ∷ poll 0 1550 ∷ poll 0 1500 ∷ poll 0 1500 ∷ []) refl refl (omega arith) refl refl
      refl ((refl, refl), ((refl, refl), ((refl, refl), ((refl, refl), tt))))

-- Two polls of six percent, each of which is counted.
abbrev counted : ℕ → Engine ℕ
counted n = record engine { consecutive_promote_polls = n }

abbrev first_polls : History hundredths [] (poll 600 0 ∷ poll 600 0 ∷ []) (counted 2)
unfolding program
first_polls =
    History.poll (poll 600 0) (counted 2, no_action hundredths normal)
      (History.poll (poll 600 0) (counted 1, no_action hundredths normal) start refl) refl

shrink_needs_streak_example :
    ByStreak hundredths
      (poll 600 0 ∷ poll 600 0 ∷ poll 600 0 ∷ [])
      (counted 2)
      (record engine { current_tier = elevated }, shrink_order hundredths engine c1)
unfolding program
shrink_needs_streak_example =
    shrink_needs_streak hundredths (poll 600 0)
      (record engine { current_tier = elevated }, shrink_order hundredths engine c1) first_polls
      refl refl

-- The engine that was counting starts again.
abbrev recounted : Reached hundredths [] (reset hundredths (counted 1))
unfolding program
recounted = was_reset (polled (poll 600 0) (counted 1, no_action hundredths normal) created refl)

reached_answers_example :
    IsEngine hundredths (reset hundredths (counted 1))
    × IsEngine hundredths (reset hundredths (reset hundredths (counted 1)))
    × Polled hundredths (reset hundredths (counted 1)) (poll 600 0)
unfolding program
reached_answers_example = reached_answers hundredths (poll 600 0) recounted
