-- ===== src/Programs/CacheApp/Operation.antt =====
-- One operation of the workload of src/cache_app/main.cpp and its effect.
use memory_aware_governor.Base.{
  ℕ, ◌+◌, ◌%◌, ◌<◌, ◌≡◌, ◌≢◌, refl, ◌∙◌, ap, Bool, false, none, some, ◌++◌, arith, if_true,
  if_false, length, Bool-cases, inl, inr, >>=-some, u64,
}
use memory_aware_governor.Base.Double.{Doubles}
use memory_aware_governor.Client.{Client}
use memory_aware_governor.Governed.{Governed, get, put}
use memory_aware_governor.Lru.{Cache}
use memory_aware_governor.Lru.Refinement.{Refines}
use memory_aware_governor.Lru.Refinement.Get.{get-Refines}
use memory_aware_governor.Lru.Refinement.Put.{put-Refines, length-entries}
use memory_aware_governor.Lru.Segment.{null}
use memory_aware_governor.Lru.Spec.{Contents, get_spec}
use memory_aware_governor.Programs.CacheApp.{Config}
use memory_aware_governor.Programs.CacheApp.Workload.{
  Round, Driver, key_of, is_read, operate, finish_round,
}
use memory_aware_governor.Programs.CacheApp.Session.{operation, effect}
use memory_aware_governor.Text.{Text, codes, show}

module _ (d : Doubles) (config : Config (d.Double)) (dec : Discrete Text)
    (value_template : Text) where
  open d use {Double}

  pub finish_round-shared :
      (r : Round Double) (s : Driver Double) (client : Client) (cache : Cache Text Text)
      → (finish_round d config dec value_template r s (client, cache)).shared
        ≡ record (s.shared) { client = client; owner = cache }
  finish_round-shared r s client cache = ground arith

  pub finish_round-total_ops :
      (r : Round Double) (s : Driver Double) (g : Governed Text Text)
      → s.total_ops + 1 < u64
      → (finish_round d config dec value_template r s g).total_ops ≡ s.total_ops + 1
  finish_round-total_ops r s g h = ground arith

  key_of-drawn : (n : ℕ) → n + 1 < u64 → key_of n ≡ codes "key_" ++ show (n + 1)
  key_of-drawn n h = ap (λ (k : ℕ). codes "key_" ++ show k) (small n h)
    where
      small : (n : ℕ) → n + 1 < u64 → (n + 1) % u64 ≡ n + 1
      small n h = omega arith

  -- The operation of a round has its effect.
  pub operate-effect :
      (r : Round Double) (reached : Bool) (client : Client) (c : Cache Text Text)
      (m : Contents Text Text)
      → r.drawn + 1 < u64
      → (is_read d config r ≡ false → (r.fresh ≢ null) × (c.heap r.fresh ≡ none))
      → Refines dec c m
      → length m.entries + 1 < u64
      → (c1 : Cache Text Text) × (operate d config dec value_template r (client, c)
          ≡ some (client, c1))
        × Refines dec c1 (effect d dec value_template config.entry_size reached (operation r) m)
  unfolding get put
  operate-effect r reached client c m small fresh refines few =
      let key : Text = codes "key_" ++ show (r.drawn + 1) in
      let same : key_of r.drawn ≡ key = key_of-drawn r.drawn small in
      elim (Bool-cases (is_read d config r)) [
        | inl read ↦
            let (c1, runs, refines1) = get-Refines dec key c m refines in
            (
              c1,
              if_true _ _ _ _ read (
                  >>=-some ((get_spec dec key m).0, (client, c1)) _ _ _
                    (>>=-some ((get_spec dec key m).0, c1) _ _ _
                      (ap (λ (k : Text). memory_aware_governor.Lru.get dec k c) same ∙ runs) refl)
                    refl),
              rw read refines1,
            )
        | inr write ↦
            let new = fresh write in
            let (c1, runs, refines1) =
              put-Refines dec r.fresh key value_template c m refines new.0 new.1
                (omega (arith, length-entries dec c m refines)) in
            (
              c1,
              if_false _ _ _ _ write (
                  >>=-some c1 _ _ _
                    (ap (λ (k : Text). memory_aware_governor.Lru.put dec r.fresh k value_template c)
                        same
                      ∙ runs)
                    refl),
              rw write refines1,
            )
      ]
