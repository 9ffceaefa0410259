-- ===== src/Programs/CacheApp/Threads.antt =====
-- The loop of `main` of src/cache_app/main.cpp and the listener thread, turn by turn.
use mathlib.Core.Path.{subst}
use memory_aware_governor.Base.{
  ℕ, ◌+◌, ◌<◌, ◌≡◌, ◌≢◌, refl, sym, ◌∙◌, ap, Bool, true, false, ◌&&◌, Option, none, some, List, [],
  ◌∷◌, ◌++◌, map, arith, ltb, lt→ltb, if_true, if_false, length, >>=-some, u64,
}
use memory_aware_governor.Base.Double.{Doubles}
use memory_aware_governor.Base.Int.{ℤ}
use memory_aware_governor.Client.{Client, WriteResult}
use memory_aware_governor.Client.Commands.{message_dispatched}
use memory_aware_governor.Client.Listener.{Loop, after_command, listener_round}
use memory_aware_governor.Governed.{callbacks}
use memory_aware_governor.Governed.Tracking.{Incoming, Writable, command-Tracks}
use memory_aware_governor.Lru.{Cache}
use memory_aware_governor.Lru.Refinement.{Refines}
use memory_aware_governor.Lru.Segment.{null}
use memory_aware_governor.Lru.Sessions.{After}
use memory_aware_governor.Lru.Spec.{Contents}
use memory_aware_governor.Programs.CacheApp.{Config}
use memory_aware_governor.Programs.CacheApp.Workload.{
  Round, Turn, driver, Driver, is_read, end_time, finish_round, pass, heard, hear, workload,
}
use memory_aware_governor.Programs.CacheApp.Session.{
  Event, operation, command, event_turn, operations, effect, effect-le, effects,
}
use memory_aware_governor.Text.{Text}
use memory_aware_governor.Programs.CacheApp.Operation.{
  finish_round-shared, finish_round-total_ops, operate-effect,
}

module _ (d : Doubles) (config : Config (d.Double)) where
  open d use {Double}

  -- The condition of the loop holds at each operation, and the number that is drawn does not wrap.
  abbrev pub AllOpen : ℕ → List (Event Double) → Type 0
  AllOpen start_time [] = Unit {0}
  AllOpen start_time (operation r ∷ es) =
      (r.running ≡ true)
      × (r.at_head < end_time d config start_time)
      × (r.drawn + 1 < u64)
      × AllOpen start_time es
  AllOpen start_time (command i ∷ es) = AllOpen start_time es

  abbrev pub Closes : ℕ → Round Double → Type 0
  Closes start_time r = (r.running && ltb r.at_head (end_time d config start_time)) ≡ false

-- The listener of a client is there and connected, or it is not.
abbrev pub Listens : Bool → Client → Type 0
Listens true c = (c.listening ≡ true) × (c.connected ≡ true)
Listens false c = c.listening ≡ false

module _ (d : Doubles) (config : Config (d.Double)) (dec : Discrete Text) (value_template : Text)
    (pid : ℤ) (reports : List WriteResult) where
  open d use {Double}

  -- Each put is given an address that is not null and not in use.
  abbrev pub Allocating : List (Event Double) → Driver Double → Type 0
  Allocating [] s = Unit {0}
  Allocating (operation r ∷ es) s =
      (is_read d config r ≡ false → (r.fresh ≢ null) × (s.shared.owner.heap r.fresh ≡ none))
      × After (pass d config dec value_template r s) (Allocating es)
  Allocating (command i ∷ es) s =
      After (hear d config dec value_template pid reports i.round s) (Allocating es)

  -- The state of the two threads behind an event.
  abbrev Passed : Bool → Option (Driver Double) → ℕ → Contents Text Text → Type 0
  Passed reached result total m =
      (s1 : Driver Double) × (result ≡ some s1)
      × Listens reached s1.shared.client
      × Refines dec s1.shared.owner m
      × (s1.total_ops ≡ total)

  abbrev after_event : Bool → Event Double → Contents Text Text → Contents Text Text
  after_event reached e m = effect d dec value_template config.entry_size reached e m

  pass-Passed :
      (r : Round Double) (reached : Bool) (s : Driver Double) (m : Contents Text Text)
      → r.drawn + 1 < u64
      → (is_read d config r ≡ false → (r.fresh ≢ null) × (s.shared.owner.heap r.fresh ≡ none))
      → Listens reached s.shared.client
      → Refines dec s.shared.owner m
      → length m.entries + 1 < u64
      → s.total_ops + 1 < u64
      → Passed reached
          (pass d config dec value_template r s)
          (s.total_ops + 1)
          (after_event reached (operation r) m)
  pass-Passed r reached s m small fresh listens refines few total =
      let client : Client = s.shared.client in
      let (c1, runs, refines1) =
        operate-effect d config dec value_template r reached client s.shared.owner m small fresh
          refines few in
      let shared = sym (finish_round-shared d config dec value_template r s client c1) in
      (
        finish_round d config dec value_template r s (client, c1),
        >>=-some (client, c1) _ _ _ runs refl,
        subst (λ (l : Loop (Cache Text Text)). Listens reached l.client) shared listens,
        subst
            (λ (l : Loop (Cache Text Text)).
              Refines dec l.owner (after_event reached (operation r) m))
            shared refines1,
        finish_round-total_ops d config dec value_template r s (client, c1) total,
      )

  hear-Passed :
      (i : Incoming) (reached : Bool) (s : Driver Double) (m : Contents Text Text)
      → Listens reached s.shared.client
      → Refines dec s.shared.owner m
      → length m.entries < u64
      → Writable pid reports
      → 0 < config.entry_size
      → Passed reached
          (hear d config dec value_template pid reports i.round s)
          s.total_ops
          (after_event reached (command i) m)
  unfolding listener_round
  hear-Passed i false s m listens refines few w pos_e = (
    s,
    ap (heard d config dec value_template pid reports s) (if_false _ _ _ _ listens refl),
    listens,
    refines,
    refl,
  )
  hear-Passed i true s m listens refines few w pos_e =
      let calls = callbacks dec config.entry_size pid reports in
      let (client1, c1, runs, up1, on1, refines1) =
        command-Tracks dec config.entry_size pid reports i.message s.shared.client s.shared.owner m
          listens.1 refines few w pos_e in
      (
        record s { shared = record (s.shared) { client = client1; owner = c1 } },
        ap (heard d config dec value_template pid reports s) (
            message_dispatched calls i.round s.shared i.message listens.0 listens.1 i.in_range
              i.reads
            ∙ ap (after_command calls s.shared) runs),
        (on1 ∙ listens.0, up1),
        refines1,
        refl,
      )

  -- The two loops from `s` on.
  pub workload-effects :
      (start_time : ℕ) (es : List (Event Double)) (last : Round Double) (rest : List (Turn Double))
      (reached : Bool) (s : Driver Double) (m : Contents Text Text)
      → AllOpen d config start_time es
      → Closes d config start_time last
      → Allocating es s
      → Listens reached s.shared.client
      → Refines dec s.shared.owner m
      → length m.entries + length es < u64
      → s.total_ops + length es < u64
      → Writable pid reports
      → 0 < config.entry_size
      → (s1 : Driver Double) × (workload d config dec value_template pid reports start_time
            (map event_turn es ++ driver last ∷ rest)
            s
          ≡ some s1)
        × Refines dec s1.shared.owner (effects d dec value_template config.entry_size reached es m)
        × (s1.total_ops ≡ s.total_ops + operations es)
  unfolding workload
  workload-effects start_time [] last rest reached s m open_ closes new listens refines few total w
        pos_e =
      (s, if_false _ _ _ _ closes refl, refines, omega arith)
  workload-effects start_time (operation r ∷ es) last rest reached s m open_ closes new listens
        refines few total w pos_e =
      let (s1, runs, listens1, refines1, total1) =
        pass-Passed r reached s m open_.2 new.0 listens refines (omega arith) (omega arith) in
      let grown = effect-le d dec value_template config.entry_size reached (operation r) m in
      let (s2, others, refines2, total2) =
        workload-effects start_time es last rest reached s1 (after_event reached (operation r) m)
          open_.3 closes
          (subst (λ (o : Option (Driver Double)). After o (Allocating es)) runs new.1) listens1
          refines1 (omega arith) (omega arith) w pos_e in
      (
        s2,
        if_true _ _ _ _ (both open_.0 (lt→ltb r.at_head (end_time d config start_time) open_.1))
            (>>=-some s1 _ _ _ runs others),
        refines2,
        omega arith,
      )
    where
      both : {a b : Bool} → a ≡ true → b ≡ true → (a && b) ≡ true
      both h k = rw (h, k) refl
  workload-effects start_time (command i ∷ es) last rest reached s m open_ closes new listens
        refines few total w pos_e =
      let (s1, runs, listens1, refines1, total1) =
        hear-Passed i reached s m listens refines (omega arith) w pos_e in
      let grown = effect-le d dec value_template config.entry_size reached (command i) m in
      let (s2, others, refines2, total2) =
        workload-effects start_time es last rest reached s1 (after_event reached (command i) m)
          open_ closes (subst (λ (o : Option (Driver Double)). After o (Allocating es)) runs new)
          listens1 refines1 (omega arith) (omega arith) w pos_e in
      (s2, >>=-some s1 _ _ _ runs others, refines2, omega arith)
