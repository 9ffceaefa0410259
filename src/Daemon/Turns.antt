-- ===== src/Daemon/Turns.antt =====
-- The turns of the two threads keep the invariants of the daemon (src/governor/psi_poller.cpp,
-- src/governor/client_registry.cpp).
use mathlib.Core.Path.{subst}
use memory_aware_governor.Base.{
  ℕ, ◌≡◌, refl, sym, ◌∙◌, ap, Bool, true, false, Option, some, List, [], ◌∷◌, if◌then◌else◌,
  if_true, if_false, inl, inr, Bool-cases, >>=-some,
}
use memory_aware_governor.Base.Double.{Doubles}
use memory_aware_governor.Text.{Text, Result}
use memory_aware_governor.Psi.Poller.{
  Poller, Outcome, returns, uncaught, stuck, read_file, poll_round, then_loop,
}
use memory_aware_governor.Psi.Rendered.{file_data}
use memory_aware_governor.Policy.Invariant.{evaluate-Change}
use memory_aware_governor.Policy.Transition.{IsEngine}
use memory_aware_governor.Registry.Closing.{Accounted, run_event_loop-Accounted}
use memory_aware_governor.Registry.Ending.{AllServed, handle_events_end}
use memory_aware_governor.Registry.Handlers.{After, FreshRun}
use memory_aware_governor.Registry.Send.{WriteResult}
use memory_aware_governor.Registry.Server.{Event, handle_events, ready, stopped, run_event_loop}
use memory_aware_governor.Daemon.Files.{File, shown, blank, missing, file_content, shown_round}
use memory_aware_governor.Daemon.Life.{
  Service, Move, poll, interruption, failure, events, registry_of, set_registry, polled, handled,
  leave_loop, event_turn, poll_turn, move, moves,
}
use memory_aware_governor.Daemon.Orders.{AllReachable, update_by, on_psi_update-update}
use memory_aware_governor.Daemon.Output.{Output, add_update, poll_callback}
use memory_aware_governor.Daemon.Leaving.{poller_behind, poller_at_end}

module _ (d : Doubles) (stod : Text → Result (d.Double)) where
  open d use {Double}

  -- A poll finds the file as the kernel shows it, empty or not at all, and every client can be sent its
  -- command; events are served, and accepted descriptors are fresh.
  abbrev pub Harmless : Move → Service Double → Type 0
  Harmless (poll content writes) s =
      (file : File d stod) × (content ≡ file_content d stod file)
      × AllReachable d writes (registry_of s).clients
  Harmless interruption s = Unit {0}
  Harmless failure s = Unit {0}
  Harmless (events es) s = AllServed es × FreshRun (ready es ∷ stopped ∷ []) (registry_of s)

  abbrev pub Behind : Outcome (Service Double) → (Service Double → Type 0) → Type 0
  Behind (returns s) P = P s
  Behind (uncaught e) P = Unit {0}
  Behind stuck P = Unit {0}

  abbrev pub AllHarmless : List Move → Service Double → Type 0
  AllHarmless [] s = Unit {0}
  AllHarmless (m ∷ ms) s = Harmless m s × Behind (move d stod m s) (AllHarmless ms)

  -- The engine meets its invariant, the server runs, and its descriptors are accounted for.
  pub record IsAlive (s : Service Double) : Type 0 where
    pub engine : IsEngine d s.output.daemon.engine
    pub registry : Accounted (registry_of s)

  -- The moves come to an end, with a daemon that is alive and a poller `p`.
  abbrev pub Moves : Outcome (Service Double) → Poller → Type 0
  Moves result p = (s1 : Service Double) × (result ≡ returns s1) × IsAlive s1 × (s1.poller ≡ p)

  -- A poll by the thread.
  poll_file :
      (file : File d stod) (writes : ℕ → List WriteResult) (s : Service Double)
      → AllReachable d writes (registry_of s).clients
      → IsAlive s
      → Moves
          (polled s (
            poll_round d stod
              (some (poll_callback d))
              (read_file (file_content d stod file))
              writes
              (s.latest, s.output)))
          s.poller
  unfolding poll_round poll_callback
  poll_file blank writes s reach v = (s, refl, v, refl)
  poll_file missing writes s reach v = (s, refl, v, refl)
  poll_file (shown f g) writes s reach v =
      let p = file_data d stod f g in
      let (c, r, at_c, runs, valid, change) = evaluate-Change d s.output.daemon.engine p v.engine in
      let u = update_by d p s.output.daemon r in
      let out : Output Double = add_update d u s.output in
      (
        record s { latest = p; output = out },
        ap (polled s) (
            shown_round d stod f g writes s.latest s.output out (
              >>=-some u _ _ _ (on_psi_update-update d writes p s.output.daemon r runs reach)
                refl)),
        record { engine = valid; registry = v.registry },
        refl,
      )

  poll-Moves :
      (content : Option Text) (writes : ℕ → List WriteResult) (s : Service Double)
      → Harmless (poll content writes) s
      → IsAlive s
      → Moves (poll_turn d stod content writes s) (poller_behind (poll content writes) s.poller)
  poll-Moves content writes s (file, same, reach) v = by_flags s.poller.in_loop s.poller.running
    where
      round : Outcome (Service Double)
      round = polled s (
          poll_round d stod (some (poll_callback d)) (read_file content) writes
            (s.latest, s.output))

      by_flags :
          (in_loop running : Bool)
          → Moves
              (if in_loop
                then if running
                  then round
                  else returns (record s { poller = record (s.poller) { in_loop = false } })
                else returns s)
              (if in_loop
                then if running then s.poller else record (s.poller) { in_loop = false }
                else s.poller)
      by_flags true true =
          subst
            (λ (o : Option Text).
              Moves
                (polled s (
                  poll_round d stod (some (poll_callback d)) (read_file o) writes
                    (s.latest, s.output)))
                s.poller)
            (sym same) (poll_file file writes s reach v)
      by_flags true false = (_, refl, record { engine = v.engine; registry = v.registry }, refl)
      by_flags false running = (s, refl, v, refl)

  -- A turn of the event loop.
  wait-Moves :
      (waited : Outcome (Service Double)) (s : Service Double)
      → IsAlive s
      → Moves waited s.poller
      → Moves (event_turn waited s) s.poller
  wait-Moves waited s v h = elim (Bool-cases s.serving) [
    | inl e ↦
        subst (λ (o : Outcome (Service Double)). Moves o s.poller)
          (sym (if_true _ _ _ _ e (if_true _ _ _ _ v.registry.up refl))) h
    | inr e ↦ (s, if_false _ _ _ _ e refl, v, refl)
  ]

  handle-Moves :
      (es : List Event) (s : Service Double)
      → AllServed es
      → FreshRun (ready es ∷ stopped ∷ []) (registry_of s)
      → IsAlive s
      → Moves (handled s (handle_events es (registry_of s))) s.poller
  unfolding run_event_loop
  handle-Moves es s served fresh v =
      let (r, ends) = handle_events_end es (registry_of s) served in
      let kept =
        run_event_loop-Accounted (ready es ∷ stopped ∷ []) (registry_of s) fresh v.registry in
      (
        set_registry r s,
        ap (handled s) ends,
        record {
          engine = v.engine;
          registry = subst (After Accounted) (>>=-some r _ _ _ ends refl) kept;
        },
        refl,
      )

  move-Moves :
      (m : Move) (s : Service Double)
      → Harmless m s
      → IsAlive s
      → Moves (move d stod m s) (poller_behind m s.poller)
  unfolding move
  move-Moves (poll content writes) s h v = poll-Moves content writes s h v
  move-Moves interruption s h v = wait-Moves (returns s) s v (s, refl, v, refl)
  move-Moves failure s h v =
      wait-Moves (returns (leave_loop s)) s v
        (leave_loop s, refl, record { engine = v.engine; registry = v.registry }, refl)
  move-Moves (events es) s h v = wait-Moves _ s v (handle-Moves es s h.0 h.1 v)

  pub moves-Moves :
      (ms : List Move) (s : Service Double)
      → AllHarmless ms s
      → IsAlive s
      → Moves (moves d stod ms s) (poller_at_end ms s.poller)
  moves-Moves [] s h v = (s, refl, v, refl)
  moves-Moves (m ∷ ms) s h v =
      let (s1, runs, v1, poller1) = move-Moves m s h.0 v in
      let (s2, others, v2, poller2) =
        moves-Moves ms s1 (subst (λ o. Behind o (AllHarmless ms)) runs h.1) v1 in
      (
        s2,
        ap (then_loop (moves d stod ms)) runs ∙ others,
        v2,
        poller2 ∙ ap (poller_at_end ms) poller1,
      )
