-- ===== src/Policy/History.antt =====
-- Why `PolicyEngine` promotes: the polls behind the counter (src/governor/policy_engine.cpp).
use mathlib.Core.Path.{subst}
use memory_aware_governor.Base.{
  ℕ, zero, suc, ◌+◌, ◌≡◌, ◌∙◌, refl, sym, ap, true, false, Option, none, some, List, [], ◌∷◌, arith,
  inl, inr, Option-cases, get_elem?,
}
use memory_aware_governor.Base.Double.{Doubles}
use memory_aware_governor.Base.Int.{reached}
use memory_aware_governor.Policy.{
  PressureTier, to_int, TierConfig, shrink, PolicyAction, Engine, new_engine, no_action, evaluate,
}
use memory_aware_governor.Policy.Counting.{Counted, fall-Counted, rise-Counted}
use memory_aware_governor.Policy.Step.{current, next, hot_for, step, evaluate-step}
use memory_aware_governor.Policy.Invariant.{new_engine-IsEngine, evaluate-Change, next-none}
use memory_aware_governor.Policy.Transition.{IsEngine, Change}
use memory_aware_governor.Psi.{PsiData}

module _ (d : Doubles) where
  open d use {Double}

  -- The last `k` polls ask for the tier above the tier `idx`, the last one first.
  abbrev pub LastHot :
      ℕ → TierConfig Double → TierConfig Double → ℕ → List (PsiData Double) → Type 0
  LastHot i c n zero ps = Unit {0}
  LastHot i c n (suc k) [] = ⊥
  LastHot i c n (suc k) (p ∷ ps) = (hot_for d i c n p ≡ true) × LastHot i c n k ps

  -- The engines that a new one becomes by some polls, the last one first.
  pub data History (configs : List (TierConfig Double))
      : List (PsiData Double) → Engine Double → Type 0 where
    start : History configs [] (new_engine d configs)
    poll :
        {ps : List (PsiData Double)} {e : Engine Double} (p : PsiData Double)
        (r : Engine Double × PolicyAction Double)
        → History configs ps e
        → evaluate d e p ≡ some r
        → History configs (p ∷ ps) r.0

  -- The counter of an engine counts polls that ask for the tier above.
  abbrev Streak : List (PsiData Double) → Engine Double → Type 0
  Streak ps e =
      (c n : TierConfig Double)
      → current d e ≡ some c
      → next d e ≡ some n
      → LastHot (to_int e.current_tier) c n e.consecutive_promote_polls ps

  none_counted :
      (ps : List (PsiData Double)) (e : Engine Double)
      → e.consecutive_promote_polls ≡ 0
      → Streak ps e
  none_counted ps e z c n at_c at_n =
      subst (λ (k : ℕ). LastHot (to_int e.current_tier) c n k ps) (sym z) tt

  one_more-LastHot :
      (ps : List (PsiData Double)) (p : PsiData Double) (e e1 : Engine Double)
      (c n c1 n1 : TierConfig Double)
      → current d e ≡ some c
      → next d e ≡ some n
      → hot_for d (to_int e.current_tier) c n p ≡ true
      → e1.current_tier ≡ e.current_tier
      → e1.configs ≡ e.configs
      → e1.consecutive_promote_polls ≡ e.consecutive_promote_polls + 1
      → Streak ps e
      → current d e1 ≡ some c1
      → next d e1 ≡ some n1
      → LastHot (to_int e1.current_tier) c1 n1 e1.consecutive_promote_polls (p ∷ ps)
  one_more-LastHot ps p e e1 c n c1 n1 at_c at_n hot tier configs count s at_c1 at_n1 =
      subst (λ (i : ℕ). LastHot i c1 n1 e1.consecutive_promote_polls (p ∷ ps))
        (sym (ap to_int tier))
        (subst (λ (k : ℕ). LastHot (to_int e.current_tier) c1 n1 k (p ∷ ps)) one_more
          (hot1, s c1 n1 before_c before_n))
    where
      one_more : suc e.consecutive_promote_polls ≡ e1.consecutive_promote_polls
      one_more = omega (arith, count)

      before_c : current d e ≡ some c1
      before_c =
          ap (λ (t : PressureTier). get_elem? e.configs (to_int t)) (sym tier)
          ∙ ap (λ (cs : List (TierConfig Double)). get_elem? cs (to_int e1.current_tier))
              (sym configs)
          ∙ at_c1

      before_n : next d e ≡ some n1
      before_n =
          ap (λ (t : PressureTier). get_elem? e.configs (suc (to_int t))) (sym tier)
          ∙ ap (λ (cs : List (TierConfig Double)). get_elem? cs (suc (to_int e1.current_tier)))
              (sym configs)
          ∙ at_n1

      same_c : c ≡ c1
      same_c = cc (at_c, before_c)

      same_n : n ≡ n1
      same_n = cc (at_n, before_n)

      hot1 : hot_for d (to_int e.current_tier) c1 n1 p ≡ true
      hot1 =
          subst (λ (x : TierConfig Double). hot_for d (to_int e.current_tier) x n1 p ≡ true) same_c
            (subst (λ (x : TierConfig Double). hot_for d (to_int e.current_tier) c x p ≡ true)
              same_n hot)

  Counted-Streak :
      (ps : List (PsiData Double)) (p : PsiData Double) (e e1 : Engine Double)
      (c n : TierConfig Double)
      → current d e ≡ some c
      → next d e ≡ some n
      → Counted d (hot_for d (to_int e.current_tier) c n p) e e1
      → Streak ps e
      → Streak (p ∷ ps) e1
  Counted-Streak ps p e e1 c n at_c at_n (inl z) s = none_counted (p ∷ ps) e1 z
  Counted-Streak ps p e e1 c n at_c at_n (inr (hot, tier, configs, count)) s =
      λ c1 n1. one_more-LastHot ps p e e1 c n c1 n1 at_c at_n hot tier configs count s

  top-Streak :
      (ps : List (PsiData Double)) (p : PsiData Double) (e : Engine Double) (c : TierConfig Double)
      → IsEngine d e
      → next d e ≡ none
      → Streak (p ∷ ps) (step d c none e p).0
  top-Streak ps p e c v top =
      let idle = v.top (omega (arith, v.in_range, next-none d e top)) in
      counted_zero (
        fall-Counted d false (to_int e.current_tier) c e e (no_action d e.current_tier) p
          (inl idle))
    where
      counted_zero : Counted d false e (step d c none e p).0 → Streak (p ∷ ps) (step d c none e p).0
      counted_zero (inl z) = none_counted (p ∷ ps) (step d c none e p).0 z
      counted_zero (inr h) = cc (h.0)

  step-Streak :
      (ps : List (PsiData Double)) (p : PsiData Double) (e : Engine Double) (c : TierConfig Double)
      → IsEngine d e
      → current d e ≡ some c
      → Streak ps e
      → Streak (p ∷ ps) (step d c (next d e) e p).0
  step-Streak ps p e c v at_c s = elim (Option-cases (next d e)) [
    | inl top ↦
        subst (λ (o : Option (TierConfig Double)). Streak (p ∷ ps) (step d c o e p).0) (sym top)
          (top-Streak ps p e c v top)
    | inr (n, at_n) ↦
        subst (λ (o : Option (TierConfig Double)). Streak (p ∷ ps) (step d c o e p).0) (sym at_n)
          (Counted-Streak ps p e (step d c (some n) e p).0 c n at_c at_n
            (rise-Counted d c n e p (hot_for d (to_int e.current_tier) c n p)) s)
  ]

  -- The engine of a history meets the invariant, and its counter counts.
  pub history-Streak :
      {configs : List (TierConfig Double)} {ps : List (PsiData Double)} {e : Engine Double}
      → History configs ps e
      → IsEngine d e × Streak ps e
  unfolding new_engine
  history-Streak {configs} start =
      (new_engine-IsEngine d configs, none_counted [] (new_engine d configs) refl)
  history-Streak (poll {ps} {e} p r h runs) =
      let (v, s) = history-Streak h in
      let (c, r1, at_c, runs1, v1, _) = evaluate-Change d e p v in
      let same : step d c (next d e) e p ≡ r = cc (evaluate-step d e c p at_c, runs) in
      let same1 : r1 ≡ r = cc (runs, runs1) in
      (
        subst (λ (x : Engine Double × PolicyAction Double). IsEngine d x.0) same1 v1,
        subst (λ (x : Engine Double × PolicyAction Double). Streak (p ∷ ps) x.0) same
            (step-Streak ps p e c v at_c s),
      )

  -- The poll completes as many polls in a row that ask for the tier above as its debounce count says.
  abbrev pub ByStreak :
      List (PsiData Double) → Engine Double → Engine Double × PolicyAction Double → Type 0
  ByStreak ps e r =
      (c n : TierConfig Double) × (k : ℕ) × (current d e ≡ some c)
      × (next d e ≡ some n)
      × (reached k n.debounce_polls ≡ true)
      × LastHot (to_int e.current_tier) c n k ps
      × (r.1.fraction ≡ n.shrink_pct)
      × (to_int r.0.current_tier ≡ suc (to_int e.current_tier))

  rose-ByStreak :
      (ps : List (PsiData Double)) (p : PsiData Double) (e : Engine Double) (c : TierConfig Double)
      (o : Option (TierConfig Double)) (r : Engine Double × PolicyAction Double)
      → Streak ps e
      → current d e ≡ some c
      → next d e ≡ o
      → Change d c o e p r
      → r.1.type ≡ shrink
      → ByStreak (p ∷ ps) e r
  rose-ByStreak ps p e c none (e1, a) s at_c at_o (inl t) asked =
      cc (ap (λ (a : PolicyAction Double). a.type) t.no_order, asked)
  rose-ByStreak ps p e c none (e1, a) s at_c at_o (inr f) asked =
      cc (ap (λ (a : PolicyAction Double). a.type) f.order, asked)
  rose-ByStreak ps p e c (some n) (e1, a) s at_c at_o (inl t) asked =
      cc (ap (λ (a : PolicyAction Double). a.type) t.no_order, asked)
  rose-ByStreak ps p e c (some n) (e1, a) s at_c at_o (inr (inl u)) asked = (
    c,
    n,
    suc e.consecutive_promote_polls,
    at_c,
    at_o,
    subst (λ (k : ℕ). reached k n.debounce_polls ≡ true) (omega arith) u.enough,
    (u.asked, s c n at_c at_o),
    ap (λ (a : PolicyAction Double). a.fraction) u.order,
    u.next_tier,
  )
  rose-ByStreak ps p e c (some n) (e1, a) s at_c at_o (inr (inr f)) asked =
      cc (ap (λ (a : PolicyAction Double). a.type) f.order, asked)

  -- If a poll of an engine that a new one has become by some polls returns a SHRINK, then that
  -- poll and the polls directly before it, together as many as the debounce count of the next
  -- tier asks for, have all asked for the next tier; the tier rises by one, and the fraction is
  -- that of the new tier.
  pub shrink_needs_streak :
      {configs : List (TierConfig Double)} {ps : List (PsiData Double)} {e : Engine Double}
      (p : PsiData Double) (r : Engine Double × PolicyAction Double)
      → History configs ps e
      → evaluate d e p ≡ some r
      → r.1.type ≡ shrink
      → ByStreak (p ∷ ps) e r
  shrink_needs_streak {ps} {e} p r h runs asked =
      let (v, s) = history-Streak h in
      let (c, r1, at_c, runs1, _, change) = evaluate-Change d e p v in
      let same1 : r1 ≡ r = cc (runs, runs1) in
      rose-ByStreak ps p e c (next d e) r s at_c refl
        (subst (λ (x : Engine Double × PolicyAction Double). Change d c (next d e) e p x) same1
          change)
        asked
