-- ===== src/Policy/Debounce.antt =====
-- How many polls `PolicyEngine` (src/governor/policy_engine.cpp) waits before it changes the tier.
use memory_aware_governor.Base.{
  ℕ, suc, ◌+◌, ◌<◌, ◌≡◌, true, false, some, List, [], ◌∷◌, ◌++◌, arith, >>=-some, length, refl,
}
use memory_aware_governor.Base.Double.{Doubles}
use memory_aware_governor.Base.Int.{ℤ, pos, reached}
use memory_aware_governor.Policy.{to_int, TierConfig, Engine}
use memory_aware_governor.Policy.Polls.{
  run_polls, quiet, All, Hot, NotHot, risen, fallen, shrink_order, grow_order, Hot-step, Hot-rise,
  cold_step, cold_fall,
}
use memory_aware_governor.Policy.Step.{current, next, cold_for}
use memory_aware_governor.Psi.{PsiData}

wait_pos : (k l : ℕ) (z : ℤ) → z ≡ pos (k + suc (suc l)) → reached (k + 1) z ≡ false
wait_pos k l z e = ground arith

now_pos : (k : ℕ) (z : ℤ) → z ≡ pos (k + 1) → reached (k + 1) z ≡ true
now_pos k z e = ground arith

later_pos : (k l : ℕ) (z : ℤ) → z ≡ pos (k + suc (suc l)) → z ≡ pos (k + 1 + suc l)
later_pos k l z e = ground arith

module _ (d : Doubles) where
  open d use {Double}

  -- Polls that ask for the next tier, and none for the tier below.
  abbrev pub Rising :
      TierConfig Double → (e : Engine Double) → TierConfig Double → PsiData Double → Type 0
  Rising c e n p = Hot d c e n p × (cold_for d c p ≡ false)

  -- Polls that ask for the tier below, and none for the next tier.
  abbrev pub Falling : TierConfig Double → Engine Double → PsiData Double → Type 0
  Falling c e p = NotHot d c e p × (cold_for d c p ≡ true)

  -- If the debounce count of the next tier asks for k more polls, the tier rises on the last of k
  -- polls in a row that ask for it (those before it not below the demote threshold), by one step
  -- and with a SHRINK by the fraction of the new tier; the polls before that return NONE.
  pub rises_after_debounce :
      (e : Engine Double) (c n : TierConfig Double) (ps : List (PsiData Double))
      (p : PsiData Double)
      → (at_c : current d e ≡ some c) → next d e ≡ some n
      → n.debounce_polls ≡ pos (e.consecutive_promote_polls + suc (length ps))
      → All d (Rising c e n) ps
      → Hot d c e n p
      → run_polls d e (ps ++ p ∷ [])
        ≡ some (risen d e, quiet d e.current_tier ps ++ shrink_order d e n ∷ [])
  unfolding run_polls
  rises_after_debounce e c n [] p at_c at_n bound _ hot =
      >>=-some _ _ _ _
        (Hot-rise d c e at_c n p at_n hot (now_pos e.consecutive_promote_polls _ bound)) refl
  rises_after_debounce e c n (q ∷ ps) p at_c at_n bound (first, rest) hot =
      let k = e.consecutive_promote_polls in
      >>=-some _ _ _ _
        (Hot-step d c e at_c n q at_n first.0 (wait_pos k (length ps) _ bound) first.1)
        (>>=-some _ _ _ _
          (rises_after_debounce
            (record e { consecutive_promote_polls = k + 1; consecutive_demote_polls = 0 }) c n ps p
            at_c at_n (later_pos k (length ps) _ bound) rest hot)
          refl)

  -- If the debounce count of a tier above the lowest asks for k more polls, the tier falls on the
  -- last of k polls in a row that are below its demote threshold and do not ask for the next
  -- tier, by one step and with a GROW by the fraction of the old tier; the polls before that
  -- return NONE.
  pub falls_after_debounce :
      (e : Engine Double) (c : TierConfig Double) (ps : List (PsiData Double)) (p : PsiData Double)
      → (at_c : current d e ≡ some c) → 0 < to_int e.current_tier
      → c.debounce_polls ≡ pos (e.consecutive_demote_polls + suc (length ps))
      → All d (Falling c e) ps
      → Falling c e p
      → run_polls d e (ps ++ p ∷ [])
        ≡ some (fallen d e, quiet d e.current_tier ps ++ grow_order d c e ∷ [])
  unfolding run_polls
  falls_after_debounce e c [] p at_c above bound _ last =
      >>=-some _ _ _ _
        (cold_fall d c e at_c p above last.0 last.1 (now_pos e.consecutive_demote_polls _ bound))
        refl
  falls_after_debounce e c (q ∷ ps) p at_c above bound (first, rest) last =
      let k = e.consecutive_demote_polls in
      >>=-some _ _ _ _
        (cold_step d c e at_c q above first.0 first.1 (wait_pos k (length ps) _ bound))
        (>>=-some _ _ _ _
          (falls_after_debounce
            (record e { consecutive_promote_polls = 0; consecutive_demote_polls = k + 1 }) c ps p
            at_c above (later_pos k (length ps) _ bound) rest last)
          refl)
