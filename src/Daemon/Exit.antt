-- ===== src/Daemon/Exit.antt =====
-- `main` of src/governor/main.cpp leaves nothing open.
use mathlib.Core.Path.{subst}
use memory_aware_governor.Base.{
  ℕ, ◌≡◌, ◌*◌, Bool, arith, refl, ◌∙◌, ap, true, false, Option, none, some, List, [], count,
  if_true,
}
use memory_aware_governor.Base.Double.{Doubles}
use memory_aware_governor.Text.{Text, Result}
use memory_aware_governor.Psi.Poller.{Outcome, new_poller, then_loop}
use memory_aware_governor.Policy.{TierConfig}
use memory_aware_governor.Policy.Invariant.{new_engine-IsEngine}
use memory_aware_governor.Registry.{Registry, new_registry}
use memory_aware_governor.Registry.Closing.{Accounted, start-Accounted, stop-closes}
use memory_aware_governor.Registry.Server.{StartCalls, StartError, shut}
use memory_aware_governor.Registry.Server
use memory_aware_governor.Daemon.Life.{
  Service, Move, exited, exit_with, registry_of, set_registry, new_service, start_poller, start,
  moves, stop_server, stop, behind_start, run_main,
}
use memory_aware_governor.Daemon.Leaving.{HasPoll, HasWait, poller_at_end-polling}
use memory_aware_governor.Daemon.Turns.{AllHarmless, Behind, moves-Moves}
use memory_aware_governor.Daemon.Stopping.{
  running, starts, flag_down, poller_stops, ended, server_stops, stopped_twice,
}

-- `stop` of a running server closes it.
stop-shut : (r : Registry) → r.running ≡ true → Server.stop r ≡ shut r
unfolding Server.stop
stop-shut r up = if_true _ _ _ _ up refl

closed_as_opened :
    (r : Registry) (p : ℕ) → Accounted r → count p (shut r).closed ≡ count p (shut r).opened
closed_as_opened r p v =
    subst (λ (r1 : Registry). count p r1.closed ≡ count p r1.opened) (stop-shut r v.up)
      (stop-closes r p v)

module _ (d : Doubles) (stod : Text → Result (d.Double)) where
  open d use {Double}

  -- The threads of the daemon make their moves in any order before the signal, while the poller
  -- is stopped and while the server is. If every system call of the start succeeds, each poll
  -- before the server is stopped finds the pressure file with its two lines, empty or missing,
  -- with every client of the table at that moment in reach of its command whatever the fraction,
  -- the events have accept calls that come to an end and reads that deliver framed messages, the
  -- accepted descriptors belong to no client of the table at that moment, the poller has a turn
  -- while it is stopped and the event loop has one while the server is, then main ends with the
  -- exit code 0: both threads have left their loops and are joined, the poller and the server do
  -- not run, the table is empty, and every descriptor has been closed as often as it was opened,
  -- also of connections that were lost or could not be watched.
  pub run_main-closes :
      (configs : List (TierConfig Double)) (calls : StartCalls) (fd epoll : ℕ)
      (before joining serving : List Move)
      → calls.socket ≡ some fd
      → calls.bind ≡ true
      → calls.listen ≡ true
      → calls.epoll_create ≡ some epoll
      → calls.epoll_ctl ≡ true
      → AllHarmless d stod before (running d stod configs (Server.start calls new_registry).0)
      → Behind d stod
          (moves d stod before (running d stod configs (Server.start calls new_registry).0))
          (λ s. AllHarmless d stod joining (flag_down d stod s))
      → HasPoll joining
      → HasWait serving
      → (s : Service Double) × (run_main d stod configs calls before joining serving ≡ exited s 0)
        × (s.poller ≡ new_poller)
        × (s.serving ≡ false)
        × ((registry_of s).running ≡ false)
        × ((registry_of s).clients ≡ [])
        × ((p : ℕ) → count p (registry_of s).closed ≡ count p (registry_of s).opened)
  unfolding run_main stop
  run_main-closes configs calls fd epoll before joining serving socket bind listen create ctl first
        second poll_turn wait_turn =
      let (no_error, v) = start-Accounted calls fd epoll socket bind listen create ctl in
      let s0 : Service Double = running d stod configs (Server.start calls new_registry).0 in
      let (s1, runs1, v1, poller1) =
        moves-Moves d stod before s0 first
          (record { engine = new_engine-IsEngine d configs; registry = v }) in
      let (s2, runs2, v2) =
        poller_stops d stod joining s1 (poller1 ∙ poller_at_end-polling before)
          (subst
            (λ (o : Outcome (Service Double)).
              Behind d stod o (λ s. AllHarmless d stod joining (flag_down d stod s)))
            runs1 second)
          v1 poll_turn in
      let stops =
        ap (then_loop (stop_server d stod serving)) runs2
        ∙ server_stops d stod serving s2 v2.registry.up wait_turn in
      (
        ended d stod s2,
        ap (behind_start d stod before joining serving) (starts d stod configs calls no_error)
            ∙ ap
                (λ (o : Outcome (Service Double)).
                  exit_with 0
                    (then_loop (stop d stod [] []) (then_loop (stop d stod joining serving) o)))
                runs1
            ∙ ap (λ (o : Outcome (Service Double)). exit_with 0 (then_loop (stop d stod [] []) o))
                stops
            ∙ ap (exit_with 0) (stopped_twice d stod s2),
        refl,
        refl,
        refl,
        refl,
        λ p. closed_as_opened (registry_of s2) p v2.registry,
      )

-- A start that has failed leaves a registry that counts as running, and a stop of it closes for the
-- second time what was opened.
record Botched (again : StartCalls) (r : Registry) : Type 0 where
  up : r.running ≡ true
  ignored : Server.start again r ≡ (r, none)
  twice : (p : ℕ) → count p (Server.stop r).closed ≡ count p (Server.stop r).opened * 2

failed_start :
    (calls again : StartCalls) (e : StartError)
    → (Server.start calls new_registry).1 ≡ some e
    → Botched again (Server.start calls new_registry).0
unfolding Server.start Server.stop
failed_start calls again e h =
    by_calls calls.socket calls.bind calls.listen calls.epoll_create calls.epoll_ctl h
  where
    by_calls :
        (socket : Option ℕ) (bind listen : Bool) (epoll : Option ℕ) (ctl : Bool)
        → let calls : StartCalls = record {
          socket = socket;
          bind = bind;
          listen = listen;
          epoll_create = epoll;
          epoll_ctl = ctl;
        } in
          (Server.start calls new_registry).1 ≡ some e
          → Botched again (Server.start calls new_registry).0
    by_calls none bind listen epoll ctl h = record {
      up = refl;
      ignored = refl;
      twice = λ p. omega arith;
    }
    by_calls (some fd) false listen epoll ctl h = record {
      up = refl;
      ignored = refl;
      twice = λ p. omega arith;
    }
    by_calls (some fd) true false epoll ctl h = record {
      up = refl;
      ignored = refl;
      twice = λ p. omega arith;
    }
    by_calls (some fd) true true none ctl h = record {
      up = refl;
      ignored = refl;
      twice = λ p. omega arith;
    }
    by_calls (some fd) true true (some epoll) false h = record {
      up = refl;
      ignored = refl;
      twice = λ p. omega arith;
    }
    by_calls (some fd) true true (some epoll) true h = cc h

module _ (d : Doubles) (stod : Text → Result (d.Double)) where
  open d use {Double}

  -- If the start of the server throws, whichever system call it is that fails, then main ends
  -- with the exit code 1, without having started the poller and with a server that does not run,
  -- and every descriptor that was opened has been closed twice; and a second start on the
  -- registry behind the failed one does nothing and throws nothing, whatever its calls would
  -- return.
  pub run_main-fails :
      (configs : List (TierConfig Double)) (calls again : StartCalls)
      (before joining serving : List Move) (e : StartError)
      → (Server.start calls new_registry).1 ≡ some e
      → (s : Service Double) × (run_main d stod configs calls before joining serving ≡ exited s 1)
        × (s.poller ≡ new_poller)
        × ((registry_of s).running ≡ false)
        × ((p : ℕ) → count p (registry_of s).closed ≡ count p (registry_of s).opened * 2)
        × (Server.start again (Server.start calls new_registry).0
            ≡ ((Server.start calls new_registry).0, none))
  unfolding run_main start stop
  run_main-fails configs calls again before joining serving e h =
      let v = failed_start calls again e h in
      let r : Registry = (Server.start calls new_registry).0 in
      let s : Service Double = set_registry r (new_service d stod configs) in
      (
        set_registry (shut r) s,
        ap
              (λ (e : Option StartError).
                behind_start d stod before joining serving
                  (start_poller (new_service d stod configs) (r, e)))
              h
            ∙ ap (exit_with 1) (if_true _ _ _ _ v.up refl),
        refl,
        refl,
        λ p.
            subst (λ (r1 : Registry). count p r1.closed ≡ count p r1.opened * 2) (stop-shut r v.up)
              (v.twice p),
        v.ignored,
      )
