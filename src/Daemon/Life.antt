-- ===== src/Daemon/Life.antt =====
-- The life of `GovernorDaemon` (src/governor/governor_daemon.cpp) and `main` of src/governor/main.cpp:
-- start, the turns of the two threads, and stop.
--
-- The threads pass through their loops turn by turn, in the order of a list; a turn begins with the flag
-- of the loop and is one step.
use memory_aware_governor.Base.{
  ℕ, Bool, true, false, Option, none, some, List, [], ◌∷◌, if◌then◌else◌, ◌>>=◌,
}
use memory_aware_governor.Base.Double.{Doubles}
use memory_aware_governor.Text.{Text, Result}
use memory_aware_governor.Psi.{PsiData}
use memory_aware_governor.Psi.Parse.{no_pressure}
use memory_aware_governor.Psi.Poller.{
  Poller, Outcome, returns, uncaught, stuck, new_poller, join, read_file, poll_round, then_loop,
}
use memory_aware_governor.Psi.Poller
use memory_aware_governor.Policy.{TierConfig}
use memory_aware_governor.Registry.{Registry}
use memory_aware_governor.Registry.Send.{WriteResult}
use memory_aware_governor.Registry.Server.{StartCalls, StartError, Event, handle_events, shut}
use memory_aware_governor.Registry.Server
use memory_aware_governor.Daemon.{new_daemon}
use memory_aware_governor.Daemon.Output.{Output, poll_callback}

-- The daemon with its poller and what it has sent and logged so far; `serving` says that the thread of
-- the registry is in its loop.
pub record Service (D : Type 0) : Type 0 where
  pub poller : Poller
  pub latest : PsiData D
  pub output : Output D
  pub serving : Bool

-- A turn of a thread: a poll that finds the file with a content, or none, with the results of the writes
-- of its broadcast; or a wait for events, which is interrupted, fails, or returns.
pub data Move : Type 0 where
  poll : Option Text → (ℕ → List WriteResult) → Move
  interruption failure : Move
  events : List Event → Move

-- How `main` ends: with an exit code, by an exception that nothing catches, or not with what it was
-- given.
pub data Ended (D : Type 0) : Type 0 where
  exited : Service D → ℕ → Ended D
  terminated waiting : Ended D

module _ {D : Type 0} where
  abbrev pub registry_of : Service D → Registry
  registry_of s = s.output.daemon.registry

  abbrev pub set_registry : Registry → Service D → Service D
  set_registry r s = record s {
    output = record (s.output) { daemon = record (s.output.daemon) { registry = r } };
  }

  -- What a turn of the poller leaves, and one of the registry.
  abbrev pub polled : Service D → Outcome (PsiData D × Output D) → Outcome (Service D)
  polled s (returns (latest, output)) = returns (record s { latest = latest; output = output })
  polled s (uncaught e) = uncaught e
  polled s stuck = stuck

  abbrev pub handled : Service D → Option Registry → Outcome (Service D)
  handled s none = stuck
  handled s (some r) = returns (set_registry r s)

  abbrev pub leave_loop : Service D → Service D
  leave_loop s = record s { serving = false }

  -- A turn of the event loop, with `waited` for the case that its flag is up.
  abbrev pub event_turn : Outcome (Service D) → Service D → Outcome (Service D)
  event_turn waited s =
      if s.serving
      then if (registry_of s).running then waited else returns (leave_loop s)
      else returns s

  -- The poller and the registry; an exception of the registry leaves the poller as it is. `none` is the
  -- end of the process.
  abbrev pub start_poller :
      Service D → Registry × Option StartError → Option (Service D × Option StartError)
  start_poller s (r, some e) = some (set_registry r s, some e)
  start_poller s (r, none) = do
    p1 ← Poller.start s.poller
    some (
      record (set_registry r s) {
        poller = p1;
        serving = if (registry_of s).running then s.serving else true;
      },
      none,
    )

  unfoldable pub start : StartCalls → Service D → Option (Service D × Option StartError)
  start calls s = start_poller s (Server.start calls (registry_of s))

  -- `thread_.join()`
  abbrev pub join_poller : Service D → Outcome (Service D)
  join_poller s = elim (join s.poller) [ none ↦ stuck | some p ↦ returns (record s { poller = p }) ]

  -- The join of the thread of the registry, and the rest of its `stop`.
  abbrev pub close_server : Service D → Outcome (Service D)
  close_server s = if s.serving then stuck else returns (set_registry (shut (registry_of s)) s)

  abbrev pub exit_with : ℕ → Outcome (Service D) → Ended D
  exit_with code (returns s) = exited s code
  exit_with code (uncaught e) = terminated
  exit_with code stuck = waiting

module _ (d : Doubles) (stod : Text → Result (d.Double)) where
  open d use {Double}

  abbrev pub new_service : List (TierConfig Double) → Service Double
  new_service configs = record {
    poller = new_poller;
    latest = no_pressure d stod;
    output = record { daemon = new_daemon d configs; sent = []; logged = [] };
    serving = false;
  }

  abbrev pub poll_turn :
      Option Text → (ℕ → List WriteResult) → Service Double → Outcome (Service Double)
  poll_turn content writes s =
      if s.poller.in_loop
      then if s.poller.running
        then polled s (
            poll_round d stod (some (poll_callback d)) (read_file content) writes
              (s.latest, s.output))
        else returns (record s { poller = record (s.poller) { in_loop = false } })
      else returns s

  unfoldable pub move : Move → Service Double → Outcome (Service Double)
  move (poll content writes) s = poll_turn content writes s
  move interruption s = event_turn (returns s) s
  move failure s = event_turn (returns (leave_loop s)) s
  move (events es) s = event_turn (handled s (handle_events es (registry_of s))) s

  abbrev pub moves : List Move → Service Double → Outcome (Service Double)
  moves [] s = returns s
  moves (m ∷ ms) s = then_loop (moves ms) (move m s)

  -- `PsiPoller::stop`, with the moves between the exchange of the flag and the end of the join.
  abbrev pub stop_poller : List Move → Service Double → Outcome (Service Double)
  stop_poller ms s =
      if s.poller.running
      then then_loop join_poller
          (moves ms (record s { poller = record (s.poller) { running = false } }))
      else returns s

  -- `ClientRegistry::stop`, in the same way.
  abbrev pub stop_server : List Move → Service Double → Outcome (Service Double)
  stop_server ms s =
      if (registry_of s).running
      then then_loop close_server
          (moves ms (set_registry (record (registry_of s) { running = false }) s))
      else returns s

  unfoldable pub stop : List Move → List Move → Service Double → Outcome (Service Double)
  stop polling serving s = then_loop (stop_server serving) (stop_poller polling s)

  -- The rest of `main`: behind an exception of `start`, the destructor stops the daemon; otherwise the
  -- threads make their moves until the flag of the signal handler is up, the daemon is stopped, and
  -- the destructor stops it again.
  abbrev pub until_signal :
      List Move → List Move → List Move → Service Double × Option StartError → Ended Double
  until_signal before polling serving (s, some e) = exit_with 1 (stop [] [] s)
  until_signal before polling serving (s, none) =
      exit_with 0 (then_loop (stop [] []) (then_loop (stop polling serving) (moves before s)))

  abbrev pub behind_start :
      List Move → List Move → List Move → Option (Service Double × Option StartError) → Ended Double
  behind_start before polling serving none = terminated
  behind_start before polling serving (some started) = until_signal before polling serving started

  -- `main` behind the reading of the command line: the moves before the signal, those while the poller
  -- is stopped, and those while the registry is.
  unfoldable pub run_main :
      List (TierConfig Double) → StartCalls → List Move → List Move → List Move → Ended Double
  run_main configs calls before polling serving =
      behind_start before polling serving (start calls (new_service configs))
