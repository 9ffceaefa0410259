-- ===== src/Policy/Reach.antt =====
-- The engines that `PolicyEngine` can come to be (src/governor/policy_engine.cpp).
use mathlib.Core.Path.{subst}
use memory_aware_governor.Base.{◌≡◌, some, List}
use memory_aware_governor.Base.Double.{Doubles}
use memory_aware_governor.Policy.{TierConfig, PolicyAction, Engine, new_engine, reset, evaluate}
use memory_aware_governor.Policy.Invariant.{
  Polled, evaluate-Change, new_engine-IsEngine, reset-IsEngine,
}
use memory_aware_governor.Policy.Transition.{IsEngine}
use memory_aware_governor.Psi.{PsiData}

module _ (d : Doubles) where
  open d use {Double}

  -- What polls and resets make of a new engine.
  pub data Reached (configs : List (TierConfig Double)) : Engine Double → Type 0 where
    created : Reached configs (new_engine d configs)
    polled :
        {e : Engine Double} (p : PsiData Double) (r : Engine Double × PolicyAction Double)
        → Reached configs e
        → evaluate d e p ≡ some r
        → Reached configs r.0
    was_reset : {e : Engine Double} → Reached configs e → Reached configs (reset d e)

  reached-IsEngine :
      {configs : List (TierConfig Double)} {e : Engine Double} → Reached configs e → IsEngine d e
  reached-IsEngine {configs} created = new_engine-IsEngine d configs
  reached-IsEngine (polled {e} p r h runs) =
      let (c, r1, at_c, runs1, v, change) = evaluate-Change d e p (reached-IsEngine h) in
      let same : r1 ≡ r = cc (runs, runs1) in
      subst (λ (x : Engine Double × PolicyAction Double). IsEngine d x.0) same v
  reached-IsEngine (was_reset {e} h) = reset-IsEngine d e (reached-IsEngine h)

  -- Every engine that polls and resets make of a new one, whatever configurations it is given,
  -- meets the invariant, and so does the engine of another reset; and any further poll reads its
  -- configurations in range, keeps the invariant and moves the tier as Change says.
  pub reached_answers :
      {configs : List (TierConfig Double)} {e : Engine Double} (p : PsiData Double)
      → Reached configs e
      → IsEngine d e × IsEngine d (reset d e) × Polled d e p
  reached_answers {e = e} p h =
      let v = reached-IsEngine h in (v, reset-IsEngine d e v, evaluate-Change d e p v)
