-- ===== src/Registry/Events.antt =====
-- The event loop of `ClientRegistry` keeps the invariant (src/governor/client_registry.cpp).
use mathlib.Core.Path.{subst}
use memory_aware_governor.Base.{List, ◌≡◌, arith, some}
use memory_aware_governor.Registry.Ending.{Stops, run_event_loop_ends}
use memory_aware_governor.Registry.{Registry, new_registry}
use memory_aware_governor.Registry.Handlers.{
  After, Fresh, FreshRun, handle_event-keeps, run_event_loop-keeps,
}
use memory_aware_governor.Registry.Invariant.{
  IsRegistry, remove_client-IsRegistry, update_client-IsRegistry, add_client-IsRegistry,
}
use memory_aware_governor.Registry.Server.{
  Wait, StartCalls, start, Event, handle_event, run_event_loop,
}

pub handle_event-IsRegistry :
    (e : Event) (r : Registry)
    → Fresh e.accepts r
    → IsRegistry r
    → After IsRegistry (handle_event e r)
handle_event-IsRegistry =
    handle_event-keeps IsRegistry remove_client-IsRegistry update_client-IsRegistry (λ fd r h. h)
      add_client-IsRegistry

-- A started server watches nothing but its own socket.
pub start-IsRegistry : (calls : StartCalls) → IsRegistry (start calls new_registry).0
unfolding start
start-IsRegistry calls = ground arith

-- If the descriptors that are accepted belong to no client of the table at that moment, the
-- registry that the event loop leaves, if it ends, meets the invariant when the registry at its
-- start did: the epoll set holds exactly the descriptors of the table, in order, and each entry
-- stands under its own descriptor.
pub run_event_loop-IsRegistry :
    (ws : List Wait) (r : Registry)
    → FreshRun ws r
    → IsRegistry r
    → After IsRegistry (run_event_loop ws r)
run_event_loop-IsRegistry =
    run_event_loop-keeps IsRegistry remove_client-IsRegistry update_client-IsRegistry (λ fd r h. h)
      add_client-IsRegistry

-- If the descriptors that are accepted belong to no client of the table at that moment, and the
-- loop is stopped or its wait fails behind events whose accept calls come to an end and whose
-- reads deliver framed messages, the event loop ends, with a registry that meets the invariant
-- when the one at its start did: the epoll set holds exactly the descriptors of the table, in
-- order, and each entry stands under its own descriptor.
pub event_loop_keeps_registry :
    (ws : List Wait) (r : Registry)
    → FreshRun ws r
    → Stops ws
    → IsRegistry r
    → (r1 : Registry) × (run_event_loop ws r ≡ some r1) × IsRegistry r1
event_loop_keeps_registry ws r fresh ends v =
    let (r1, runs) = run_event_loop_ends ws r ends in
    (r1, runs, subst (After IsRegistry) runs (run_event_loop-IsRegistry ws r fresh v))
