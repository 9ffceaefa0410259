-- ===== src/Policy/Invariant.antt =====
-- The invariant of `PolicyEngine` (src/governor/policy_engine.cpp) holds behind every operation.
use memory_aware_governor.Base.{
  ℕ, zero, suc, ◌+◌, ◌≤◌, ◌<◌, ◌≡◌, ◌∙◌, refl, ap, Bool, true, false, Option, none, some, List, [],
  ◌∷◌, arith, ltb, ltb→lt, ltb→ge, if◌then◌else◌, length, get_elem?_lt, get_elem?_ge, inl, inr,
  Bool-cases, ◌⊎◌,
}
use memory_aware_governor.Base.Double.{Doubles}
use memory_aware_governor.Base.Int.{reached}
use memory_aware_governor.Policy.{
  to_int, TierConfig, PolicyAction, Engine, promote, demote, no_action, evaluate, new_engine,
  choose_configs, reset,
}
use memory_aware_governor.Policy.Step.{
  current, next, hot_for, fall, unless_promoted, step, evaluate-step,
}
use memory_aware_governor.Policy.Transition.{to_int-of_int, IsEngine, Change, step-Change}
use memory_aware_governor.Psi.{PsiData}

module _ (d : Doubles) where
  open d use {Double}

  -- What a poll keeps, for an engine that enters the demotion check with `p` upward polls.
  record Kept (e r : Engine Double) (p : ℕ) : Type 0 where
    one : (r.consecutive_promote_polls ≡ 0) ⊎ (r.consecutive_demote_polls ≡ 0)
    low : to_int r.current_tier ≡ 0 → r.consecutive_demote_polls ≡ 0
    up :
        (r.consecutive_promote_polls ≡ 0)
        ⊎ ((r.consecutive_promote_polls ≡ p) × (r.current_tier ≡ e.current_tier))
    same : r.configs ≡ e.configs

  fall-Kept :
      (idx : ℕ) (c : TierConfig Double) (e : Engine Double) (a : PolicyAction Double)
      (data_ : PsiData Double) (p q : ℕ)
      → to_int e.current_tier ≡ idx
      → (p ≡ 0) ⊎ (q ≡ 0)
      → (idx ≡ 0 → q ≡ 0)
      → Kept e
          (fall d idx c
            (record e { consecutive_promote_polls = p; consecutive_demote_polls = q })
            a
            data_).0
          p
  unfolding demote
  fall-Kept zero c e a data_ p q at one low = record {
    one = one;
    low = λ z. low refl;
    up = inr (refl, refl);
    same = refl;
  }
  fall-Kept (suc i) c e a data_ p q at one low = ground (arith, to_int-of_int i)

  module _ (c n : TierConfig Double) (e : Engine Double) (data_ : PsiData Double)
      (v : IsEngine d e) where
    abbrev idx : ℕ
    idx = to_int e.current_tier

    -- In a tier with another above it a poll may also rise, or count upwards.
    record KeptBelow (r : Engine Double) : Type 0 where
      one : (r.consecutive_promote_polls ≡ 0) ⊎ (r.consecutive_demote_polls ≡ 0)
      low : to_int r.current_tier ≡ 0 → r.consecutive_demote_polls ≡ 0
      up : (r.consecutive_promote_polls ≡ 0) ⊎ (r.current_tier ≡ e.current_tier)
      same : r.configs ≡ e.configs

    below : (r : Engine Double) (p : ℕ) → Kept e r p → KeptBelow r
    below r p k = record { one = k.one; low = k.low; up = ground (arith, k.up); same = k.same }

    promote-Kept :
        (b : Bool)
        → reached (e.consecutive_promote_polls + 1) n.debounce_polls ≡ b
        → KeptBelow
            (unless_promoted d idx c data_ (promote d (suc idx) n e (no_action d e.current_tier))).0
    unfolding promote
    promote-Kept true er =
        rw er (record { one = inl refl; low = λ z. refl; up = inl refl; same = refl })
    promote-Kept false er = rw er (
        below _ (e.consecutive_promote_polls + 1) (
          fall-Kept idx c e (no_action d e.current_tier) data_ (e.consecutive_promote_polls + 1) 0
            refl (inr refl) (λ z. refl)))

    rise-Kept :
        (b : Bool)
        → KeptBelow
            (unless_promoted d idx c data_ (
              if b then promote d (suc idx) n e (no_action d e.current_tier) else (
                record e { consecutive_promote_polls = 0 },
                no_action d e.current_tier,
                false,
              ))).0
    rise-Kept true = promote-Kept (reached (e.consecutive_promote_polls + 1) n.debounce_polls) refl
    rise-Kept false = below _ 0 (
        fall-Kept idx c e (no_action d e.current_tier) data_ 0 e.consecutive_demote_polls refl
          (inl refl) v.bottom)

  next-some :
      (e : Engine Double) (n : TierConfig Double)
      → next d e ≡ some n
      → suc (to_int e.current_tier) < length e.configs
  next-some e n at_n = elim (Bool-cases (ltb (suc (to_int e.current_tier)) (length e.configs))) [
    | inl inside ↦ ltb→lt _ _ inside
    | inr out ↦ absurd (cc (get_elem?_ge e.configs (suc (to_int e.current_tier)) (ltb→ge _ _ out)))
  ]

  pub next-none :
      (e : Engine Double) → next d e ≡ none → length e.configs ≤ suc (to_int e.current_tier)
  next-none e none_next = elim (Bool-cases (ltb (suc (to_int e.current_tier)) (length e.configs))) [
    | inr out ↦ ltb→ge _ _ out
    | inl inside ↦
        let (n, at_n) = get_elem?_lt e.configs (suc (to_int e.current_tier)) (ltb→lt _ _ inside) in
        absurd (cc at_n)
  ]

  top-IsEngine :
      (c : TierConfig Double) (e : Engine Double) (data_ : PsiData Double)
      → IsEngine d e
      → next d e ≡ none
      → IsEngine d (step d c none e data_).0
  top-IsEngine c e data_ v top =
      let e1 = (step d c none e data_).0 in
      let k =
        fall-Kept (to_int e.current_tier) c e (no_action d e.current_tier) data_
          e.consecutive_promote_polls e.consecutive_demote_polls refl v.one_counter v.bottom in
      let idle = v.top (omega (arith, v.in_range, next-none e top)) in
      record {
        in_range = in_range e1 k.same (step-Change d c none e data_);
        one_counter = k.one;
        bottom = k.low;
        top = λ _. no_polls e1 idle k.up;
      }
    where
      in_range :
          (e1 : Engine Double)
          → e1.configs ≡ e.configs
          → Change d c none e data_ (e1, (step d c none e data_).1)
          → to_int e1.current_tier < length e1.configs
      in_range e1 same (inl s) = rw (same, s.same_tier) v.in_range
      in_range e1 same (inr f) = rw same (omega (arith, f.tier_below, v.in_range))

      no_polls :
          (e1 : Engine Double)
          → e.consecutive_promote_polls ≡ 0
          → (e1.consecutive_promote_polls ≡ 0)
            ⊎ ((e1.consecutive_promote_polls ≡ e.consecutive_promote_polls)
                × (e1.current_tier ≡ e.current_tier))
          → e1.consecutive_promote_polls ≡ 0
      no_polls e1 z (inl h) = h
      no_polls e1 z (inr h) = h.0 ∙ z

  below-IsEngine :
      (c n : TierConfig Double) (e : Engine Double) (data_ : PsiData Double)
      → IsEngine d e
      → next d e ≡ some n
      → IsEngine d (step d c (some n) e data_).0
  below-IsEngine c n e data_ v at_n =
      let e1 = (step d c (some n) e data_).0 in
      let k = rise-Kept c n e data_ v (hot_for d (to_int e.current_tier) c n data_) in
      let room = next-some e n at_n in
      record {
        in_range = in_range e1 k.same (step-Change d c (some n) e data_);
        one_counter = k.one;
        bottom = k.low;
        top = λ t. no_polls e1 room k.same t k.up;
      }
    where
      in_range :
          (e1 : Engine Double)
          → e1.configs ≡ e.configs
          → Change d c (some n) e data_ (e1, (step d c (some n) e data_).1)
          → to_int e1.current_tier < length e1.configs
      in_range e1 same (inl s) = rw (same, s.same_tier) v.in_range
      in_range e1 same (inr (inl r)) = rw same (omega (arith, r.next_tier, next-some e n at_n))
      in_range e1 same (inr (inr f)) = rw same (omega (arith, f.tier_below, v.in_range))

      no_polls :
          (e1 : Engine Double)
          → suc (to_int e.current_tier) < length e.configs
          → e1.configs ≡ e.configs
          → suc (to_int e1.current_tier) ≡ length e1.configs
          → (e1.consecutive_promote_polls ≡ 0) ⊎ (e1.current_tier ≡ e.current_tier)
          → e1.consecutive_promote_polls ≡ 0
      no_polls e1 room same t (inl h) = h
      no_polls e1 room same t (inr h) =
          absurd
            (omega (arith, ap to_int h, ap (λ (cs : List (TierConfig Double)). length cs) same))

  -- What a poll does to an engine that meets the invariant.
  abbrev pub Polled : Engine Double → PsiData Double → Type 0
  Polled e data_ =
      (c : TierConfig Double) × (r : Engine Double × PolicyAction Double) × (current d e ≡ some c)
      × (evaluate d e data_ ≡ some r)
      × IsEngine d r.0
      × Change d c (next d e) e data_ r

  -- Every poll of an engine that meets the invariant reads its configurations in range and keeps
  -- the invariant (the tier has a configuration, at most one counter runs, none upwards at the
  -- top, none downwards at the bottom). The tier moves by at most one: up with a SHRINK by the
  -- fraction of the new tier, after a poll that asks for the next tier and completes its debounce
  -- count; down with a GROW by the fraction of the old tier, after a poll below its demote
  -- threshold; and if it stays, the action is NONE.
  pub evaluate-Change : (e : Engine Double) (data_ : PsiData Double) → IsEngine d e → Polled e data_
  evaluate-Change e data_ v =
      let (c, at_c) = get_elem?_lt e.configs (to_int e.current_tier) v.in_range in
      (
        c,
        step d c (next d e) e data_,
        at_c,
        evaluate-step d e c data_ at_c,
        valid c (next d e) refl,
        step-Change d c (next d e) e data_,
      )
    where
      valid :
          (c : TierConfig Double) (o : Option (TierConfig Double))
          → next d e ≡ o
          → IsEngine d (step d c o e data_).0
      valid c none top = top-IsEngine c e data_ v top
      valid c (some n) at_n = below-IsEngine c n e data_ v at_n

  -- A new engine meets the invariant, whatever configurations it is given: with none it has the
  -- default ones.
  pub new_engine-IsEngine : (cs : List (TierConfig Double)) → IsEngine d (new_engine d cs)
  unfolding new_engine choose_configs
  new_engine-IsEngine [] = ground arith
  new_engine-IsEngine (c ∷ cs) = ground arith

  -- reset keeps the invariant of an engine.
  pub reset-IsEngine : (e : Engine Double) → IsEngine d e → IsEngine d (reset d e)
  unfolding reset
  reset-IsEngine e v = ground arith
