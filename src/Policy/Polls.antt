-- ===== src/Policy/Polls.antt =====
-- One poll of `PolicyEngine` (src/governor/policy_engine.cpp), for each combination of the two tests,
-- and sequences of polls.
use memory_aware_governor.Base.{
  ℕ, zero, suc, ◌+◌, ◌-◌, ◌<◌, ◌≡◌, ◌∙◌, refl, ap, Bool, true, false, Option, some, List, [], ◌∷◌,
  map, arith, if_true, if_false, ◌>>=◌, inl, inr, Option-cases,
}
use memory_aware_governor.Base.Double.{Doubles}
use memory_aware_governor.Base.Int.{reached}
use memory_aware_governor.Policy.{
  PressureTier, to_int, of_int, TierConfig, shrink, grow, PolicyAction, Engine, promote, demote,
  no_action, evaluate,
}
use memory_aware_governor.Policy.Step.{
  current, next, hot_for, cold_for, fall, unless_promoted, step, evaluate-step,
}
use memory_aware_governor.Psi.{PsiData}

module _ (d : Doubles) where
  open d use {Double}

  -- One call of `evaluate` for each poll; the actions in order.
  unfoldable pub run_polls :
      Engine Double → List (PsiData Double) → Option (Engine Double × List (PolicyAction Double))
  run_polls e [] = some (e, [])
  run_polls e (p ∷ ps) = do
    (e1, a) ← evaluate d e p
    (e2, as_) ← run_polls e1 ps
    some (e2, a ∷ as_)

  -- As many actions NONE as there are polls.
  abbrev pub quiet : PressureTier → List (PsiData Double) → List (PolicyAction Double)
  quiet tier = map (λ _. no_action d tier)

  abbrev pub All : (PsiData Double → Type 0) → List (PsiData Double) → Type 0
  All P [] = Unit {0}
  All P (p ∷ ps) = P p × All P ps

  module _ (e : Engine Double) where
    abbrev pub counting : ℕ → ℕ → Engine Double
    counting p q = record e { consecutive_promote_polls = p; consecutive_demote_polls = q }

    abbrev pub risen : Engine Double
    risen = record e {
      current_tier = of_int (suc (to_int e.current_tier));
      consecutive_promote_polls = 0;
      consecutive_demote_polls = 0;
    }

    abbrev pub fallen : Engine Double
    fallen = record e {
      current_tier = of_int (to_int e.current_tier - 1);
      consecutive_promote_polls = 0;
      consecutive_demote_polls = 0;
    }

    abbrev pub shrink_order : TierConfig Double → PolicyAction Double
    shrink_order n = record {
      type = shrink;
      fraction = n.shrink_pct;
      new_tier = of_int (suc (to_int e.current_tier));
    }

  module _ (c : TierConfig Double) (e : Engine Double) where
    abbrev pub Hot : TierConfig Double → PsiData Double → Type 0
    Hot n p = hot_for d (to_int e.current_tier) c n p ≡ true

    -- The poll does not ask for the tier above, if there is one.
    abbrev pub NotHot : PsiData Double → Type 0
    NotHot data_ =
        (n : TierConfig Double)
        → next d e ≡ some n
        → hot_for d (to_int e.current_tier) c n data_ ≡ false

    abbrev pub grow_order : PolicyAction Double
    grow_order = record {
      type = grow;
      fraction = c.shrink_pct;
      new_tier = of_int (to_int e.current_tier - 1);
    }

  module _ (c : TierConfig Double) (e : Engine Double) (at_c : current d e ≡ some c) where
    abbrev idx : ℕ
    idx = to_int e.current_tier

    fall_warm :
        (i p : ℕ) (a : PolicyAction Double) (data_ : PsiData Double)
        → cold_for d c data_ ≡ false
        → fall d i c (counting e p 0) a data_ ≡ (counting e p 0, a)
    fall_warm zero p a data_ warm = refl
    fall_warm (suc i) p a data_ warm = if_false _ _ _ _ warm refl

    promote_wait :
        (n : TierConfig Double)
        → reached (e.consecutive_promote_polls + 1) n.debounce_polls ≡ false
        → promote d (suc idx) n e (no_action d e.current_tier)
          ≡ (counting e (e.consecutive_promote_polls + 1) 0, no_action d e.current_tier, false)
    unfolding promote
    promote_wait n wait = if_false _ _ _ _ wait refl

    pub Hot-step :
        (n : TierConfig Double) (data_ : PsiData Double)
        → next d e ≡ some n
        → Hot c e n data_
        → reached (e.consecutive_promote_polls + 1) n.debounce_polls ≡ false
        → cold_for d c data_ ≡ false
        → evaluate d e data_
          ≡ some (counting e (e.consecutive_promote_polls + 1) 0, no_action d e.current_tier)
    Hot-step n data_ at_n hot wait warm =
        evaluate-step d e c data_ at_c
        ∙ ap (λ (o : Option (TierConfig Double)). some (step d c o e data_)) at_n
        ∙ ap
            (λ (r : Engine Double × PolicyAction Double × Bool).
              some (unless_promoted d idx c data_ r))
            (if_true _ _ _ _ hot (promote_wait n wait))
        ∙ ap some (fall_warm idx (e.consecutive_promote_polls + 1) _ data_ warm)

    promote_now :
        (n : TierConfig Double)
        → reached (e.consecutive_promote_polls + 1) n.debounce_polls ≡ true
        → promote d (suc idx) n e (no_action d e.current_tier) ≡ (risen e, shrink_order e n, true)
    unfolding promote
    promote_now n now = if_true _ _ _ _ now refl

    pub Hot-rise :
        (n : TierConfig Double) (data_ : PsiData Double)
        → next d e ≡ some n
        → Hot c e n data_
        → reached (e.consecutive_promote_polls + 1) n.debounce_polls ≡ true
        → evaluate d e data_ ≡ some (risen e, shrink_order e n)
    Hot-rise n data_ at_n hot now =
        evaluate-step d e c data_ at_c
        ∙ ap (λ (o : Option (TierConfig Double)). some (step d c o e data_)) at_n
        ∙ ap
            (λ (r : Engine Double × PolicyAction Double × Bool).
              some (unless_promoted d idx c data_ r))
            (if_true _ _ _ _ hot (promote_now n now))

    -- Behind a promotion check that does not hold, the demotion check decides.
    NotHot-step :
        (data_ : PsiData Double) (r : Engine Double × PolicyAction Double)
        → NotHot c e data_
        → ((p : ℕ)
            → fall d idx c
                (counting e p e.consecutive_demote_polls)
                (no_action d e.current_tier)
                data_
              ≡ r)
        → evaluate d e data_ ≡ some r
    NotHot-step data_ r not_hot falls =
        evaluate-step d e c data_ at_c ∙ elim (Option-cases (next d e)) [
          | inl top ↦
              ap (λ (o : Option (TierConfig Double)). some (step d c o e data_)) top
              ∙ ap some (falls e.consecutive_promote_polls)
          | inr (n, at_n) ↦
              ap (λ (o : Option (TierConfig Double)). some (step d c o e data_)) at_n
              ∙ ap
                  (λ (r : Engine Double × PolicyAction Double × Bool).
                    some (unless_promoted d idx c data_ r))
                  (if_false _ _ _ _ (not_hot n at_n) refl)
              ∙ ap some (falls 0)
        ]

    demote_wait :
        (i p q : ℕ)
        → reached (q + 1) c.debounce_polls ≡ false
        → demote d i c (counting e p q) (no_action d e.current_tier)
          ≡ (counting e 0 (q + 1), no_action d e.current_tier)
    unfolding demote
    demote_wait i p q wait = if_false _ _ _ _ wait refl

    demote_now :
        (p q : ℕ)
        → reached (q + 1) c.debounce_polls ≡ true
        → demote d idx c (counting e p q) (no_action d e.current_tier) ≡ (fallen e, grow_order c e)
    unfolding demote
    demote_now p q now = if_true _ _ _ _ now refl

    fall_cold :
        (i p q : ℕ) (data_ : PsiData Double) (r : Engine Double × PolicyAction Double)
        → 0 < i
        → cold_for d c data_ ≡ true
        → demote d i c (counting e p q) (no_action d e.current_tier) ≡ r
        → fall d i c (counting e p q) (no_action d e.current_tier) data_ ≡ r
    fall_cold zero p q data_ r pos_i cold h = absurd (omega arith)
    fall_cold (suc i) p q data_ r pos_i cold h = if_true _ _ _ _ cold h

    pub cold_step :
        (data_ : PsiData Double)
        → 0 < idx
        → NotHot c e data_
        → cold_for d c data_ ≡ true
        → reached (e.consecutive_demote_polls + 1) c.debounce_polls ≡ false
        → evaluate d e data_
          ≡ some (counting e 0 (e.consecutive_demote_polls + 1), no_action d e.current_tier)
    cold_step data_ pos_i not_hot cold wait = NotHot-step data_ _ not_hot (λ p.
        fall_cold idx p e.consecutive_demote_polls data_ _ pos_i cold
          (demote_wait idx p e.consecutive_demote_polls wait))

    pub cold_fall :
        (data_ : PsiData Double)
        → 0 < idx
        → NotHot c e data_
        → cold_for d c data_ ≡ true
        → reached (e.consecutive_demote_polls + 1) c.debounce_polls ≡ true
        → evaluate d e data_ ≡ some (fallen e, grow_order c e)
    cold_fall data_ pos_i not_hot cold now = NotHot-step data_ _ not_hot (λ p.
        fall_cold idx p e.consecutive_demote_polls data_ _ pos_i cold
          (demote_now p e.consecutive_demote_polls now))

    -- A poll that asks for both neighbours at once.
    pub both_step :
        (n : TierConfig Double) (data_ : PsiData Double)
        → 0 < idx
        → next d e ≡ some n
        → Hot c e n data_
        → cold_for d c data_ ≡ true
        → reached (e.consecutive_promote_polls + 1) n.debounce_polls ≡ false
        → reached 1 c.debounce_polls ≡ false
        → evaluate d e data_ ≡ some (counting e 0 1, no_action d e.current_tier)
    both_step n data_ pos_i at_n hot cold wait_up wait_down =
        evaluate-step d e c data_ at_c
        ∙ ap (λ (o : Option (TierConfig Double)). some (step d c o e data_)) at_n
        ∙ ap
            (λ (r : Engine Double × PolicyAction Double × Bool).
              some (unless_promoted d idx c data_ r))
            (if_true _ _ _ _ hot (promote_wait n wait_up))
        ∙ ap some (
            fall_cold idx (e.consecutive_promote_polls + 1) 0 data_ _ pos_i cold
              (demote_wait idx (e.consecutive_promote_polls + 1) 0 wait_down))
