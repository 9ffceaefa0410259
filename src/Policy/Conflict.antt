-- ===== src/Policy/Conflict.antt =====
-- Polls of `PolicyEngine` (src/governor/policy_engine.cpp) that ask for both neighbours of a tier.
use memory_aware_governor.Base.{
  ℕ, ◌+◌, ◌<◌, ◌≡◌, ◌∙◌, ap, true, false, some, List, [], ◌∷◌, >>=-some, refl,
}
use memory_aware_governor.Base.Double.{Doubles}
use memory_aware_governor.Base.Int.{reached}
use memory_aware_governor.Policy.{to_int, TierConfig, Engine}
use memory_aware_governor.Policy.Polls.{run_polls, quiet, All, Hot, both_step}
use memory_aware_governor.Policy.Step.{current, next, cold_for}
use memory_aware_governor.Psi.{PsiData}

module _ (d : Doubles) where
  open d use {Double}

  -- In a tier above the lowest with another above it, if both debounce counts are two or more and
  -- no upward poll is counted, any number of polls that ask for the next tier and lie below the
  -- demote threshold as well leave the tier as it is and return NONE: each check resets the
  -- counter of the other.
  pub conflict_stays :
      (e : Engine Double) (c n : TierConfig Double) (ps : List (PsiData Double))
      → (at_c : current d e ≡ some c) → next d e ≡ some n
      → 0 < to_int e.current_tier
      → e.consecutive_promote_polls ≡ 0
      → reached 1 n.debounce_polls ≡ false
      → reached 1 c.debounce_polls ≡ false
      → All d (λ p. Hot d c e n p × (cold_for d c p ≡ true)) ps
      → (e1 : Engine Double) × (run_polls d e ps ≡ some (e1, quiet d e.current_tier ps))
        × (e1.current_tier ≡ e.current_tier)
        × (e1.configs ≡ e.configs)
  unfolding run_polls
  conflict_stays e c n [] at_c at_n above idle up down _ = (e, refl, refl, refl)
  conflict_stays e c n (p ∷ ps) at_c at_n above idle up down (first, rest) =
      let (e1, runs, same, configs) =
        conflict_stays (record e { consecutive_promote_polls = 0; consecutive_demote_polls = 1 }) c
          n ps at_c at_n above refl up down rest in
      (
        e1,
        >>=-some _ _ _ _
            (both_step d c e at_c n p above at_n first.0 first.1
              (ap (λ (k : ℕ). reached (k + 1) n.debounce_polls) idle ∙ up) down)
            (>>=-some _ _ _ _ runs refl),
        same,
        configs,
      )
