-- ===== src/Policy/Step.antt =====
-- `PolicyEngine::evaluate` (src/governor/policy_engine.cpp) as one decision on two tests.
use memory_aware_governor.Base.{
  ℕ, zero, suc, ◌≡◌, ◌∙◌, refl, ap, Bool, true, false, ◌||◌, Option, none, some, arith, ltb, ◌==◌,
  if◌then◌else◌, >>=-some, if_true, if_false, lt→ltb, ltb→lt, ltb→ge, length, List, sym, get_elem?,
  get_elem?_lt, get_elem?_ge, inl, inr, Option-cases, Bool-cases,
}
use memory_aware_governor.Base.Double.{Doubles}
use memory_aware_governor.Policy.{
  to_int, TierConfig, PolicyAction, Engine, promote_condition, promote, promotion_check, demote,
  demotion_check, no_action, evaluate,
}
use memory_aware_governor.Psi.{PsiData}

module _ (d : Doubles) where
  open d use {Double, ge, lt}

  -- The configuration of the current tier and of the next one.
  abbrev pub current : Engine Double → Option (TierConfig Double)
  current e = get_elem? e.configs (to_int e.current_tier)

  abbrev pub next : Engine Double → Option (TierConfig Double)
  next e = get_elem? e.configs (suc (to_int e.current_tier))

  -- A poll asks for the next tier, whose configuration is `n`; that of the current one is `c`.
  abbrev pub hot_for : ℕ → TierConfig Double → TierConfig Double → PsiData Double → Bool
  hot_for idx c n data_ =
      if suc idx == 3
      then ge data_.some_avg10 n.promote_threshold || ge data_.some_avg60 c.promote_threshold
      else ge data_.some_avg10 n.promote_threshold

  -- A poll asks for the tier below.
  abbrev pub cold_for : TierConfig Double → PsiData Double → Bool
  cold_for c data_ = lt data_.some_avg10 c.demote_threshold

  -- The outcome of the promotion check in a tier below the top.
  abbrev pub rise :
      ℕ
      → TierConfig Double
      → TierConfig Double
      → Engine Double
      → PsiData Double
      → Engine Double × PolicyAction Double × Bool
  rise idx c n e data_ =
      if hot_for idx c n data_
      then promote d (suc idx) n e (no_action d e.current_tier)
      else (record e { consecutive_promote_polls = 0 }, no_action d e.current_tier, false)

  promotion_check_below :
      (idx : ℕ) (e : Engine Double) (c n : TierConfig Double) (data_ : PsiData Double)
      → get_elem? e.configs idx ≡ some c
      → get_elem? e.configs (suc idx) ≡ some n
      → ltb (suc idx) (length e.configs) ≡ true
      → promotion_check d idx e (no_action d e.current_tier) data_ ≡ some (rise idx c n e data_)
  unfolding promotion_check promote_condition
  promotion_check_below idx e c n data_ at_c at_n test = if_true _ _ _ _ test (
      >>=-some n _ _ _ at_n
        (>>=-some (hot_for idx c n data_) _ _ _ (condition (suc idx == 3) refl) refl))
    where
      condition :
          (b : Bool)
          → (suc idx == 3) ≡ b
          → promote_condition d e.configs idx n data_ ≡ some (hot_for idx c n data_)
      condition true e3 = rw e3 (>>=-some c _ _ _ at_c refl)
      condition false e3 = rw e3

  promotion_check_top :
      (idx : ℕ) (e : Engine Double) (a : PolicyAction Double) (data_ : PsiData Double)
      → ltb (suc idx) (length e.configs) ≡ false
      → promotion_check d idx e a data_ ≡ some (e, a, false)
  unfolding promotion_check
  promotion_check_top idx e a data_ test = if_false _ _ _ _ test refl

  rise-configs :
      (idx : ℕ) (c n : TierConfig Double) (e : Engine Double) (data_ : PsiData Double)
      → (rise idx c n e data_).0.configs ≡ e.configs
  unfolding promote
  rise-configs idx c n e data_ = split (hot_for idx c n data_)
    where
      split :
          (b : Bool)
          → (if b then promote d (suc idx) n e (no_action d e.current_tier) else (
            record e { consecutive_promote_polls = 0 },
            no_action d e.current_tier,
            false,
          )).0.configs
            ≡ e.configs
      split true = ground arith
      split false = refl

  -- The outcome of the demotion check behind a promotion check that did not promote.
  abbrev pub fall :
      ℕ
      → TierConfig Double
      → Engine Double
      → PolicyAction Double
      → PsiData Double
      → Engine Double × PolicyAction Double
  fall zero c e a data_ = (e, a)
  fall (suc i) c e a data_ =
      if cold_for c data_
      then demote d (suc i) c e a
      else (record e { consecutive_demote_polls = 0 }, a)

  abbrev pub unless_promoted :
      ℕ
      → TierConfig Double
      → PsiData Double
      → Engine Double × PolicyAction Double × Bool
      → Engine Double × PolicyAction Double
  unless_promoted idx c data_ (e, a, true) = (e, a)
  unless_promoted idx c data_ (e, a, false) = fall idx c e a data_

  -- What `evaluate` does in a tier with configuration `c`, and `n` above it if there is a tier.
  abbrev pub step :
      TierConfig Double
      → Option (TierConfig Double)
      → Engine Double
      → PsiData Double
      → Engine Double × PolicyAction Double
  step c none e data_ = fall (to_int e.current_tier) c e (no_action d e.current_tier) data_
  step c (some n) e data_ =
      unless_promoted (to_int e.current_tier) c data_ (rise (to_int e.current_tier) c n e data_)

  demotion_check_lem :
      (idx : ℕ) (r : Engine Double × PolicyAction Double × Bool) (c : TierConfig Double)
      (data_ : PsiData Double)
      → get_elem? r.0.configs idx ≡ some c
      → demotion_check d idx r.2 r.0 r.1 data_ ≡ some (unless_promoted idx c data_ r)
  unfolding demotion_check
  demotion_check_lem idx (e, a, true) c data_ at_c = refl
  demotion_check_lem zero (e, a, false) c data_ at_c = refl
  demotion_check_lem (suc i) (e, a, false) c data_ at_c =
      if_true _ _ _ _ (lt→ltb 0 (suc i) (omega arith)) (>>=-some c _ _ _ at_c refl)

  pub evaluate-step :
      (e : Engine Double) (c : TierConfig Double) (data_ : PsiData Double)
      → current e ≡ some c
      → evaluate d e data_ ≡ some (step c (next e) e data_)
  unfolding evaluate
  evaluate-step e c data_ at_c = elim (Option-cases (next e)) [
    | inl no_next ↦
        >>=-some _ _ _ _
          (promotion_check_top idx e (no_action d e.current_tier) data_ (top no_next))
          (demotion_check_lem idx (e, no_action d e.current_tier, false) c data_ at_c
            ∙ ap (λ (o : Option (TierConfig Double)). some (step c o e data_)) (sym no_next))
    | inr (n, at_n) ↦
        >>=-some _ _ _ _ (promotion_check_below idx e c n data_ at_c at_n (below n at_n)) (
          demotion_check_lem idx (rise idx c n e data_) c data_ (
            ap (λ (cs : List (TierConfig Double)). get_elem? cs idx) (rise-configs idx c n e data_)
            ∙ at_c)
          ∙ ap (λ (o : Option (TierConfig Double)). some (step c o e data_)) (sym at_n))
  ]
    where
      idx : ℕ
      idx = to_int e.current_tier

      top : next e ≡ none → ltb (suc idx) (length e.configs) ≡ false
      top no_next = elim (Bool-cases (ltb (suc idx) (length e.configs))) [
        | inr out ↦ out
        | inl inside ↦
            let (n, at_n) = get_elem?_lt e.configs (suc idx) (ltb→lt _ _ inside) in
            absurd (cc (no_next, at_n))
      ]

      below : (n : TierConfig Double) → next e ≡ some n → ltb (suc idx) (length e.configs) ≡ true
      below n at_n = elim (Bool-cases (ltb (suc idx) (length e.configs))) [
        | inl inside ↦ inside
        | inr out ↦ absurd (cc (get_elem?_ge e.configs (suc idx) (ltb→ge _ _ out), at_n))
      ]
