-- ===== src/Policy/Counting.antt =====
-- What a poll of `PolicyEngine` may do to the counter of the promotion (src/governor/policy_engine.cpp).
use memory_aware_governor.Base.{
  ℕ, zero, suc, ◌+◌, ◌≡◌, refl, Bool, true, false, arith, ◌⊎◌, inl, inr, if◌then◌else◌,
}
use memory_aware_governor.Base.Double.{Doubles}
use memory_aware_governor.Base.Int.{reached}
use memory_aware_governor.Policy.{
  to_int, TierConfig, PolicyAction, Engine, promote, demote, no_action,
}
use memory_aware_governor.Policy.Step.{fall, unless_promoted}
use memory_aware_governor.Psi.{PsiData}

module _ (d : Doubles) where
  open d use {Double}

  -- What a poll may do to the counter of the promotion.
  abbrev pub Counted : Bool → Engine Double → Engine Double → Type 0
  Counted hot e e1 =
      (e1.consecutive_promote_polls ≡ 0)
      ⊎ ((hot ≡ true)
          × (e1.current_tier ≡ e.current_tier)
          × (e1.configs ≡ e.configs)
          × (e1.consecutive_promote_polls ≡ e.consecutive_promote_polls + 1))

  pub fall-Counted :
      (hot : Bool) (idx : ℕ) (c : TierConfig Double) (e e0 : Engine Double)
      (a : PolicyAction Double) (data_ : PsiData Double)
      → Counted hot e0 e
      → Counted hot e0 (fall d idx c e a data_).0
  unfolding demote
  fall-Counted hot zero c e e0 a data_ h = h
  fall-Counted hot (suc i) c e e0 a data_ h = ground arith

  module _ (c n : TierConfig Double) (e : Engine Double) (data_ : PsiData Double) where
    abbrev idx : ℕ
    idx = to_int e.current_tier

    promote-Counted :
        (enough : Bool)
        → reached (e.consecutive_promote_polls + 1) n.debounce_polls ≡ enough
        → Counted true e
            (unless_promoted d idx c data_ (promote d (suc idx) n e (no_action d e.current_tier))).0
    unfolding promote
    promote-Counted true er = rw er (inl refl)
    promote-Counted false er = rw er (
        fall-Counted true idx c _ e (no_action d e.current_tier) data_
          (inr (refl, refl, refl, refl)))

    pub rise-Counted :
        (hot : Bool)
        → Counted hot e
            (unless_promoted d idx c data_ (
              if hot then promote d (suc idx) n e (no_action d e.current_tier) else (
                record e { consecutive_promote_polls = 0 },
                no_action d e.current_tier,
                false,
              ))).0
    rise-Counted true =
        promote-Counted (reached (e.consecutive_promote_polls + 1) n.debounce_polls) refl
    rise-Counted false = fall-Counted false idx c _ e (no_action d e.current_tier) data_ (inl refl)
