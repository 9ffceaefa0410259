-- ===== src/Daemon/Interleaving.antt =====
-- The two threads of the daemon: polls of the pressure and events of the sockets in any order
-- (src/governor/governor_daemon.cpp, src/governor/client_registry.cpp).
use mathlib.Core.Path.{subst}
use memory_aware_governor.Base.{
  ℕ, ◌≡◌, refl, sym, ◌∙◌, ap, true, some, List, [], ◌∷◌, >>=-some, >>=-inv,
}
use memory_aware_governor.Base.Double.{Doubles}
use memory_aware_governor.Psi.{PsiData}
use memory_aware_governor.Policy.{TierConfig, PolicyAction, Engine, new_engine, evaluate}
use memory_aware_governor.Policy.Invariant.{evaluate-Change, new_engine-IsEngine}
use memory_aware_governor.Policy.Polls.{run_polls}
use memory_aware_governor.Policy.Transition.{IsEngine}
use memory_aware_governor.Registry.{Registry, new_registry}
use memory_aware_governor.Registry.Closing.{Accounted, start-Accounted, handle_event-Accounted}
use memory_aware_governor.Registry.Handlers.{After, Fresh}
use memory_aware_governor.Registry.Invariant.{IsRegistry}
use memory_aware_governor.Registry.Events.{handle_event-IsRegistry, start-IsRegistry}
use memory_aware_governor.Registry.Send.{WriteResult}
use memory_aware_governor.Registry.Server.{StartCalls, start, Event, handle_event, handle_events}
use memory_aware_governor.Daemon.{Daemon, Update, on_psi_update, dispatch_some}

module _ (d : Doubles) where
  open d use {Double}

  -- What the two threads do.
  pub data Act : Type 0 where
    poll : PsiData Double → Act
    event : Event → Act

  -- The polls and the events among some acts, in their order.
  abbrev pub polls_of : List Act → List (PsiData Double)
  polls_of [] = []
  polls_of (poll p ∷ as_) = p ∷ polls_of as_
  polls_of (event e ∷ as_) = polls_of as_

  abbrev pub events_of : List Act → List Event
  events_of [] = []
  events_of (poll p ∷ as_) = events_of as_
  events_of (event e ∷ as_) = e ∷ events_of as_

  -- From a daemon to another by some acts, the first one first. The accepted descriptors are fresh in
  -- the table of that moment.
  pub data Steps : List Act → Daemon Double → Daemon Double → Type 0 where
    done : {daemon : Daemon Double} → Steps [] daemon daemon
    polled :
        {as_ : List Act} {daemon last : Daemon Double} (writes : ℕ → List WriteResult)
        (p : PsiData Double) (u : Update Double)
        → on_psi_update d writes p daemon ≡ some u
        → Steps as_ u.daemon last
        → Steps (poll p ∷ as_) daemon last
    handled :
        {as_ : List Act} {daemon last : Daemon Double} (e : Event) (r : Registry)
        → Fresh e.accepts daemon.registry
        → handle_event e daemon.registry ≡ some r
        → Steps as_ (record daemon { registry = r }) last
        → Steps (event e ∷ as_) daemon last

  -- What a poll does to a daemon: a poll of its engine, and nothing to the table.
  ByPoll : PsiData Double → Daemon Double → Daemon Double → Type 0
  ByPoll p daemon daemon1 =
      (a : PolicyAction Double) × (evaluate d daemon.engine p ≡ some (daemon1.engine, a))
      × (daemon1.registry ≡ daemon.registry)

  poll-ByPoll :
      (writes : ℕ → List WriteResult) (p : PsiData Double) (daemon : Daemon Double)
      (u : Update Double)
      → on_psi_update d writes p daemon ≡ some u
      → ByPoll p daemon u.daemon
  unfolding on_psi_update ByPoll
  poll-ByPoll writes p daemon u h =
      let (r, runs, rest) = >>=-inv (evaluate d daemon.engine p) _ u h in
      let (sent, _, same) = >>=-inv (dispatch_some d r.1 writes daemon.registry) _ u rest in
      let engine : r.0 ≡ u.daemon.engine = cc same in
      (r.1, runs ∙ ap (λ (e : Engine Double). some (e, r.1)) engine, cc same)

  -- The invariants of a daemon.
  pub record Sound (daemon : Daemon Double) : Type 0 where
    pub engine : IsEngine d daemon.engine
    pub registry : IsRegistry daemon.registry
    pub descriptors : Accounted daemon.registry

  -- The threads have not disturbed each other.
  abbrev pub Undisturbed : List Act → Daemon Double → Daemon Double → Type 0
  Undisturbed as_ daemon last =
      Sound last
      × ((actions : List (PolicyAction Double)) × (run_polls d daemon.engine (polls_of as_)
            ≡ some (last.engine, actions)))
      × (handle_events (events_of as_) daemon.registry ≡ some last.registry)

  Steps-Undisturbed :
      {as_ : List Act} {daemon last : Daemon Double}
      → Steps as_ daemon last
      → Sound daemon
      → Undisturbed as_ daemon last
  unfolding run_polls ByPoll
  Steps-Undisturbed {daemon = daemon} done v = (v, ([], refl), refl)
  Steps-Undisturbed (polled {as_} {daemon} {last} writes p u h steps) v =
      let (a, runs, same) = poll-ByPoll writes p daemon u h in
      let (c, r, at_c, runs1, valid, change) = evaluate-Change d daemon.engine p v.engine in
      let one : r ≡ (u.daemon.engine, a) = cc (runs, runs1) in
      let (v2, (actions, polls), events) = Steps-Undisturbed steps (record {
        engine =
            subst (λ (e : Engine Double). IsEngine d e)
              (ap (λ (x : Engine Double × PolicyAction Double). x.0) one) valid;
        registry = subst IsRegistry (sym same) v.registry;
        descriptors = subst Accounted (sym same) v.descriptors;
      }) in
      (
        v2,
        (a ∷ actions, >>=-some _ _ _ _ runs (>>=-some _ _ _ _ polls refl)),
        ap (handle_events (events_of as_)) (sym same) ∙ events,
      )
  Steps-Undisturbed (handled {as_} {daemon} {last} e r fresh h steps) v =
      let (v2, polls, events) = Steps-Undisturbed steps (record {
        engine = v.engine;
        registry =
            subst (After IsRegistry) h (handle_event-IsRegistry e daemon.registry fresh v.registry);
        descriptors =
            subst (After Accounted) h
              (handle_event-Accounted e daemon.registry fresh v.descriptors);
      }) in
      (v2, polls, >>=-some r _ _ _ h events)

  -- The daemon behind `start`.
  abbrev pub started : List (TierConfig Double) → StartCalls → Daemon Double
  started configs calls = record {
    engine = new_engine d configs;
    registry = (start calls new_registry).0;
  }

  -- If every system call of the start succeeds, then whatever polls and events a started daemon
  -- has been through, in any order, each one come to its end and the accepted descriptors fresh
  -- in the table of that moment: its engine and its table meet their invariants, every descriptor
  -- has been opened as often as it is in use or was closed, the engine is the one that the policy
  -- makes of the polls alone, and the table is the one that the event handlers make of the events
  -- alone.
  pub threads_apart :
      (configs : List (TierConfig Double)) (calls : StartCalls) (fd epoll : ℕ) (as_ : List Act)
      (last : Daemon Double)
      → calls.socket ≡ some fd
      → calls.bind ≡ true
      → calls.listen ≡ true
      → calls.epoll_create ≡ some epoll
      → calls.epoll_ctl ≡ true
      → Steps as_ (started configs calls) last
      → Undisturbed as_ (started configs calls) last
  threads_apart configs calls fd epoll as_ last socket bind listen create ctl steps =
      let v = start-Accounted calls fd epoll socket bind listen create ctl in
      Steps-Undisturbed steps (record {
        engine = new_engine-IsEngine d configs;
        registry = start-IsRegistry calls;
        descriptors = v.1;
      })
