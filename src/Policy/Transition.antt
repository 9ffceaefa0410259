-- ===== src/Policy/Transition.antt =====
-- Which tier follows which, and with which action (src/governor/policy_engine.cpp).
use memory_aware_governor.Base.{
  ℕ, zero, suc, ◌+◌, ◌<◌, ◌≡◌, refl, Bool, true, false, Option, none, some, arith, if◌then◌else◌,
  length, inl, inr, ◌⊎◌,
}
use memory_aware_governor.Base.Double.{Doubles}
use memory_aware_governor.Base.Int.{reached}
use memory_aware_governor.Policy.{
  to_int, of_int, TierConfig, shrink, grow, PolicyAction, Engine, promote, demote, no_action,
}
use memory_aware_governor.Policy.Step.{hot_for, cold_for, fall, unless_promoted, step}
use memory_aware_governor.Psi.{PsiData}

pub to_int-of_int : (n : ℕ) → to_int (of_int n) ≡ n
to_int-of_int zero = refl
to_int-of_int (suc zero) = refl
to_int-of_int (suc (suc zero)) = refl
to_int-of_int (suc (suc (suc zero))) = refl
to_int-of_int (suc (suc (suc (suc n)))) = refl

module _ (d : Doubles) where
  open d use {Double}

  -- The tier has a configuration, and at most one of the two counters is running: none upwards in
  -- the top tier, none downwards in the bottom tier.
  pub record IsEngine (e : Engine Double) : Type 0 where
    pub in_range : to_int e.current_tier < length e.configs
    pub one_counter : (e.consecutive_promote_polls ≡ 0) ⊎ (e.consecutive_demote_polls ≡ 0)
    pub bottom : to_int e.current_tier ≡ 0 → e.consecutive_demote_polls ≡ 0
    pub top : suc (to_int e.current_tier) ≡ length e.configs → e.consecutive_promote_polls ≡ 0

  -- How a poll may change the engine, and the action that it returns.
  pub record Stayed (e e1 : Engine Double) (a : PolicyAction Double) : Type 0 where
    pub same_tier : e1.current_tier ≡ e.current_tier
    pub no_order : a ≡ no_action d e.current_tier

  pub record Rose (c n : TierConfig Double) (e e1 : Engine Double) (data_ : PsiData Double)
      (a : PolicyAction Double) : Type 0 where
    pub asked : hot_for d (to_int e.current_tier) c n data_ ≡ true
    pub enough : reached (e.consecutive_promote_polls + 1) n.debounce_polls ≡ true
    pub next_tier : to_int e1.current_tier ≡ suc (to_int e.current_tier)
    pub order : a ≡ record { type = shrink; fraction = n.shrink_pct; new_tier = e1.current_tier }

  pub record Fell (c : TierConfig Double) (e e1 : Engine Double) (data_ : PsiData Double)
      (a : PolicyAction Double) : Type 0 where
    pub asked : cold_for d c data_ ≡ true
    pub tier_below : suc (to_int e1.current_tier) ≡ to_int e.current_tier
    pub order : a ≡ record { type = grow; fraction = c.shrink_pct; new_tier = e1.current_tier }

  abbrev pub Change :
      TierConfig Double
      → Option (TierConfig Double)
      → Engine Double
      → PsiData Double
      → Engine Double × PolicyAction Double
      → Type 0
  Change c none e data_ (e1, a) = Stayed e e1 a ⊎ Fell c e e1 data_ a
  Change c (some n) e data_ (e1, a) = Stayed e e1 a ⊎ Rose c n e e1 data_ a ⊎ Fell c e e1 data_ a

  fall-Change :
      (idx : ℕ) (c : TierConfig Double) (e : Engine Double) (data_ : PsiData Double) (p q : ℕ)
      → to_int e.current_tier ≡ idx
      → let e1 = record e { consecutive_promote_polls = p; consecutive_demote_polls = q } in
        let r = fall d idx c e1 (no_action d e.current_tier) data_ in
        Stayed e r.0 r.1 ⊎ Fell c e r.0 data_ r.1
  unfolding demote
  fall-Change zero c e data_ p q at = inl (record { same_tier = refl; no_order = refl })
  fall-Change (suc i) c e data_ p q at = ground (arith, to_int-of_int i)

  -- The three cases at an engine and an action.
  abbrev Cases :
      TierConfig Double
      → TierConfig Double
      → Engine Double
      → PsiData Double
      → Engine Double × PolicyAction Double
      → Type 0
  Cases c n e data_ r = Stayed e r.0 r.1 ⊎ Rose c n e r.0 data_ r.1 ⊎ Fell c e r.0 data_ r.1

  widen :
      (c n : TierConfig Double) (e e1 : Engine Double) (data_ : PsiData Double)
      (a : PolicyAction Double)
      → Stayed e e1 a ⊎ Fell c e e1 data_ a
      → Cases c n e data_ (e1, a)
  widen c n e e1 data_ a (inl s) = inl s
  widen c n e e1 data_ a (inr f) = inr (inr f)

  module _ (c n : TierConfig Double) (e : Engine Double) (data_ : PsiData Double) where
    abbrev idx : ℕ
    idx = to_int e.current_tier

    abbrev counting : ℕ → ℕ → Engine Double
    counting p q = record e { consecutive_promote_polls = p; consecutive_demote_polls = q }

    promote-Cases :
        (b : Bool)
        → reached (e.consecutive_promote_polls + 1) n.debounce_polls ≡ b
        → hot_for d idx c n data_ ≡ true
        → Cases c n e data_
            (unless_promoted d idx c data_ (promote d (suc idx) n e (no_action d e.current_tier)))
    unfolding promote
    promote-Cases true e_reached e_hot = rw e_reached (
        inr (
          inl (record {
            asked = e_hot;
            enough = e_reached;
            next_tier = to_int-of_int (suc idx);
            order = refl;
          })))
    promote-Cases false e_reached e_hot =
        rw e_reached (
          widen c n e _ data_ _
            (fall-Change idx c e data_ (e.consecutive_promote_polls + 1) 0 refl))

    rise-Cases :
        (b : Bool)
        → hot_for d idx c n data_ ≡ b
        → Cases c n e data_ (
            unless_promoted d idx c data_ (
              if b
              then promote d (suc idx) n e (no_action d e.current_tier)
              else (counting 0 e.consecutive_demote_polls, no_action d e.current_tier, false)))
    rise-Cases true e_hot =
        promote-Cases (reached (e.consecutive_promote_polls + 1) n.debounce_polls) refl e_hot
    rise-Cases false e_hot =
        widen c n e _ data_ _ (fall-Change idx c e data_ 0 e.consecutive_demote_polls refl)

  pub step-Change :
      (c : TierConfig Double) (o : Option (TierConfig Double)) (e : Engine Double)
      (data_ : PsiData Double)
      → Change c o e data_ (step d c o e data_)
  step-Change c none e data_ =
      fall-Change (to_int e.current_tier) c e data_ e.consecutive_promote_polls
        e.consecutive_demote_polls refl
  step-Change c (some n) e data_ =
      rise-Cases c n e data_ (hot_for d (to_int e.current_tier) c n data_) refl
