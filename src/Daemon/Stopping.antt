-- ===== src/Daemon/Stopping.antt =====
-- The start and the stop of the daemon, with the turns of its threads during the joins
-- (src/governor/governor_daemon.cpp).
use memory_aware_governor.Base.{
  ◌≡◌, refl, ◌∙◌, ap, true, false, Option, none, some, List, [], if_true,
}
use memory_aware_governor.Base.Double.{Doubles}
use memory_aware_governor.Text.{Text, Result}
use memory_aware_governor.Psi.Poller.{Poller, Outcome, returns, new_poller, join, then_loop, stuck}
use memory_aware_governor.Psi.Poller
use memory_aware_governor.Policy.{TierConfig}
use memory_aware_governor.Registry.{Registry, new_registry}
use memory_aware_governor.Registry.Server.{StartCalls, StartError, shut}
use memory_aware_governor.Registry.Server
use memory_aware_governor.Daemon.Life.{
  Service, Move, registry_of, set_registry, leave_loop, new_service, start_poller, start,
  join_poller, close_server, stop_poller, stop_server, stop,
}
use memory_aware_governor.Daemon.Leaving.{
  HasPoll, HasWait, polling, stopping, poller_at_end, poller_at_end-stopping, moves-HasWait,
}
use memory_aware_governor.Daemon.Turns.{AllHarmless, IsAlive, moves-Moves}

module _ (d : Doubles) (stod : Text → Result (d.Double)) where
  open d use {Double}

  -- The daemon behind a start that succeeds.
  abbrev pub running : List (TierConfig Double) → Registry → Service Double
  running configs r = record (set_registry r (new_service d stod configs)) {
    poller = polling;
    serving = true;
  }

  pub starts :
      (configs : List (TierConfig Double)) (calls : StartCalls)
      → (Server.start calls new_registry).1 ≡ none
      → start calls (new_service d stod configs)
        ≡ some (running configs (Server.start calls new_registry).0, none)
  unfolding start Poller.start
  starts configs calls h =
      ap
        (λ (e : Option StartError).
          start_poller (new_service d stod configs) ((Server.start calls new_registry).0, e))
        h

  -- The flag of the poller is down.
  abbrev pub flag_down : Service Double → Service Double
  flag_down s = record s { poller = record (s.poller) { running = false } }

  joins :
      (s : Service Double)
      → s.poller ≡ record stopping { in_loop = false }
      → join_poller s ≡ returns (record s { poller = new_poller })
  joins s h =
      ap
        (λ (p : Poller). elim (join p) as (λ _. Outcome (Service Double)) [
          | none ↦ stuck
          | some p1 ↦ returns (record s { poller = p1 })
        ])
        h

  -- The poller is stopped, if it gets a turn in the meantime.
  pub poller_stops :
      (ms : List Move) (s : Service Double)
      → s.poller ≡ polling
      → AllHarmless d stod ms (flag_down s)
      → IsAlive d stod s
      → HasPoll ms
      → (s1 : Service Double) × (stop_poller d stod ms s
          ≡ returns (record s1 { poller = new_poller }))
        × IsAlive d stod s1
  poller_stops ms s on harmless v turn =
      let (s1, runs, v1, poller1) =
        moves-Moves d stod ms (flag_down s) harmless
          (record { engine = v.engine; registry = v.registry }) in
      let off = ap (λ (p : Poller). record p { running = false }) on in
      let gone = poller1 ∙ ap (poller_at_end ms) off ∙ poller_at_end-stopping ms turn in
      (
        s1,
        if_true _ _ _ _ (ap (λ (p : Poller). p.running) on)
            (ap (then_loop join_poller) runs ∙ joins s1 gone),
        v1,
      )

  -- What is left of a daemon.
  abbrev pub ended : Service Double → Service Double
  ended s = leave_loop (set_registry (shut (registry_of s)) (record s { poller = new_poller }))

  -- The server is stopped, if its loop gets a turn in the meantime.
  pub server_stops :
      (ms : List Move) (s : Service Double)
      → (registry_of s).running ≡ true
      → HasWait ms
      → stop_server d stod ms (record s { poller = new_poller }) ≡ returns (ended s)
  server_stops ms s up turn = if_true _ _ _ _ up (
      ap (then_loop close_server) (
        moves-HasWait d stod ms
          (set_registry (record (registry_of s) { running = false })
            (record s { poller = new_poller }))
          turn refl refl))

  pub stopped_twice : (s : Service Double) → stop d stod [] [] (ended s) ≡ returns (ended s)
  unfolding stop
  stopped_twice s = refl
