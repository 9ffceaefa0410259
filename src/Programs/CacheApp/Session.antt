-- ===== src/Programs/CacheApp/Session.antt =====
-- What the workload of src/cache_app/main.cpp and the listener beside it make of the cache: the
-- operations and the commands one by one, on lists of entries.
use memory_aware_governor.Base.{
  ℕ, ◌+◌, ◌≤◌, ◌<◌, ◌≡◌, refl, Bool, true, false, List, [], ◌∷◌, ◌++◌, arith, if◌then◌else◌, length,
  u64,
}
use memory_aware_governor.Base.Double.{Doubles}
use memory_aware_governor.Governed.Tracking.{Incoming, follow, follow-le, resized}
use memory_aware_governor.Lru.Lookups.{looked_up, get_counted}
use memory_aware_governor.Lru.Sessions.{get_spec-le, put_spec-le}
use memory_aware_governor.Lru.Spec.{Contents, get_spec, put_spec, resize_spec}
use memory_aware_governor.Programs.CacheApp.Workload.{Round, Turn, driver, listener}
use memory_aware_governor.Protocol.{
  Message, MessageType, register, report_size, shrink, grow, ack, heartbeat, unknown,
}
use memory_aware_governor.Text.{Text, codes, show}

-- What happens to the cache: an operation of the workload, or a message of the daemon.
pub data Event (D : Type 0) : Type 0 where
  operation : Round D → Event D
  command : Incoming → Event D

abbrev pub event_turn : {D : Type 0} → Event D → Turn D
event_turn (operation r) = driver r
event_turn (command i) = listener i.round

abbrev pub operations : {D : Type 0} → List (Event D) → ℕ
operations [] = 0
operations (operation r ∷ es) = operations es + 1
operations (command i ∷ es) = operations es

module _ (d : Doubles) where
  open d use {Double, lt, literal}

  -- The operations whose coin is below eighty.
  abbrev pub lookups_of : Event Double → ℕ
  lookups_of (operation r) = if lt r.coin (literal 80) then 1 else 0
  lookups_of (command i) = 0

  abbrev pub lookups : List (Event Double) → ℕ
  lookups [] = 0
  lookups (e ∷ es) = lookups_of e + lookups es

  module _ (dec : Discrete Text) (value_template : Text) (entry_size : ℕ) (reached : Bool) where
    -- An operation looks its key up, eighty times of a hundred, or stores the template under it; a
    -- message is followed if the daemon was reached.
    abbrev pub effect : Event Double → Contents Text Text → Contents Text Text
    effect (operation r) m =
        let key : Text = codes "key_" ++ show (r.drawn + 1) in
        if lt r.coin (literal 80) then (get_spec dec key m).1 else put_spec dec key value_template m
    effect (command i) m = if reached then follow entry_size i.message m else m

    abbrev pub effects : List (Event Double) → Contents Text Text → Contents Text Text
    effects [] m = m
    effects (e ∷ es) m = effects es (effect e m)

    pub effect-le :
        (e : Event Double) (m : Contents Text Text)
        → length (effect e m).entries ≤ length m.entries + 1
    effect-le (operation r) m =
        let key : Text = codes "key_" ++ show (r.drawn + 1) in
        ground (arith, get_spec-le dec key m, put_spec-le dec key value_template m)
    effect-le (command i) m = ground (arith, follow-le entry_size i.message m)

    resized-looked_up :
        (needed : Bool) (n : ℕ) (m : Contents Text Text)
        → looked_up dec (resized needed n m) ≡ looked_up dec m
    unfolding resize_spec
    resized-looked_up true n m = refl
    resized-looked_up false n m = refl

    follow-looked_up :
        (msg : Message) (m : Contents Text Text)
        → looked_up dec (follow entry_size msg m) ≡ looked_up dec m
    follow-looked_up msg m = by_type msg.type
      where
        by_type :
            (t : MessageType)
            → looked_up dec (follow entry_size (record msg { type = t }) m) ≡ looked_up dec m
        by_type register = refl
        by_type report_size = refl
        by_type shrink = resized-looked_up _ _ m
        by_type grow = resized-looked_up _ _ m
        by_type ack = refl
        by_type heartbeat = refl
        by_type unknown = refl

    effect-looked_up :
        (e : Event Double) (m : Contents Text Text)
        → looked_up dec m + 1 < u64
        → looked_up dec (effect e m) ≡ looked_up dec m + lookups_of e
    unfolding put_spec
    effect-looked_up (operation r) m h = by_coin (lt r.coin (literal 80))
      where
        key : Text
        key = codes "key_" ++ show (r.drawn + 1)

        by_coin :
            (b : Bool)
            → looked_up dec
                (if b then (get_spec dec key m).1 else put_spec dec key value_template m)
              ≡ looked_up dec m + (if b then 1 else 0)
        by_coin true = get_counted dec key m h
        by_coin false = omega arith
    effect-looked_up (command i) m h = by_reached reached
      where
        by_reached :
            (b : Bool)
            → looked_up dec (if b then follow entry_size i.message m else m) ≡ looked_up dec m + 0
        by_reached true = omega (arith, follow-looked_up i.message m)
        by_reached false = omega arith

    lookups_of-le : (e : Event Double) → lookups_of e ≤ 1
    lookups_of-le (operation r) = ground arith
    lookups_of-le (command i) = omega arith

    -- Every lookup is a hit or a miss.
    pub effects-looked_up :
        (es : List (Event Double)) (m : Contents Text Text)
        → looked_up dec m + length es < u64
        → looked_up dec (effects es m) ≡ looked_up dec m + lookups es
    effects-looked_up [] m h = omega arith
    effects-looked_up (e ∷ es) m h =
        let one = effect-looked_up e m (omega arith) in
        let few = lookups_of-le e in
        let others = effects-looked_up es (effect e m) (omega arith) in omega arith
