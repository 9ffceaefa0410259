-- ===== src/Registry/Ending.antt =====
-- The event loop of `ClientRegistry` comes to its end (src/governor/client_registry.cpp).
use memory_aware_governor.Base.{
  ◌≡◌, refl, ◌∙◌, ap, Bool, true, false, ◌||◌, some, List, [], ◌∷◌, ◌++◌, if◌then◌else◌, >>=-some,
}
use memory_aware_governor.Registry.{
  Registry, AcceptResult, accepted, would_block, failed, ReadResult, remove_client, add_client,
  drop_connection, handle_new_connection, handle_client_message,
}
use memory_aware_governor.Registry.Reading.{
  Delivery, Ending, apply_all, finish, delivery_results, ending_result,
  handle_client_message-deliveries,
}
use memory_aware_governor.Registry.Server.{
  Event, handle_event, handle_events, Wait, stopped, interrupted, wait_failed, ready,
  run_event_loop, is_listen_fd,
}

-- The calls of `accept` for an event come to an end, and those of `read` deliver messages.
pub record Served (e : Event) : Type 0 where
  pub connections : List AcceptResult
  pub later_accepts : List AcceptResult
  pub all_accepted : e.accepts ≡ connections ++ would_block ∷ later_accepts
  pub messages : List Delivery
  pub ending : Ending
  pub later_reads : List ReadResult
  pub all_read : e.reads ≡ delivery_results messages (ending_result ending ∷ later_reads)

abbrev pub AllServed : List Event → Type 0
AllServed [] = Unit {0}
AllServed (e ∷ es) = Served e × AllServed es

-- The loop is stopped, or its wait fails, behind events that are served.
abbrev pub Stops : List Wait → Type 0
Stops [] = ⊥
Stops (stopped ∷ rest) = Unit {0}
Stops (interrupted ∷ rest) = Stops rest
Stops (wait_failed ∷ rest) = Unit {0}
Stops (ready events ∷ rest) = AllServed events × Stops rest

connections_end :
    (xs ys : List AcceptResult) (r : Registry)
    → (r1 : Registry) × (handle_new_connection (xs ++ would_block ∷ ys) r ≡ some r1)
unfolding handle_new_connection
connections_end [] ys r = (r, refl)
connections_end (would_block ∷ xs) ys r = (r, refl)
connections_end (failed ∷ xs) ys r = connections_end xs ys r
connections_end (accepted fd false now ∷ xs) ys r = connections_end xs ys (drop_connection fd r)
connections_end (accepted fd true now ∷ xs) ys r = connections_end xs ys (add_client fd now r)

handle_event_ends :
    (e : Event) (r : Registry) → Served e → (r1 : Registry) × (handle_event e r ≡ some r1)
unfolding handle_event
handle_event_ends e r v =
    by_tests (is_listen_fd e.fd r.listen_fd)
      (e.epoll_err || e.epoll_hup || (if e.epoll_in then false else true))
  where
    by_tests :
        (listening lost : Bool)
        → (r1 : Registry) × ((if listening
              then handle_new_connection e.accepts r
              else if lost
              then some (remove_client e.fd r)
              else handle_client_message e.fd e.reads r)
            ≡ some r1)
    by_tests true lost =
        let (r1, runs) = connections_end v.connections v.later_accepts r in
        (r1, ap (λ (xs : List AcceptResult). handle_new_connection xs r) v.all_accepted ∙ runs)
    by_tests false true = (remove_client e.fd r, refl)
    by_tests false false = (
      finish v.ending e.fd (apply_all e.fd v.messages r),
      ap (λ (xs : List ReadResult). handle_client_message e.fd xs r) v.all_read
          ∙ handle_client_message-deliveries e.fd v.messages v.ending v.later_reads r,
    )

pub handle_events_end :
    (es : List Event) (r : Registry)
    → AllServed es
    → (r1 : Registry) × (handle_events es r ≡ some r1)
handle_events_end [] r h = (r, refl)
handle_events_end (e ∷ es) r h =
    let (r1, first) = handle_event_ends e r h.0 in
    let (r2, others) = handle_events_end es r1 h.1 in (r2, >>=-some r1 _ _ _ first others)

pub run_event_loop_ends :
    (ws : List Wait) (r : Registry) → Stops ws → (r1 : Registry) × (run_event_loop ws r ≡ some r1)
unfolding run_event_loop
run_event_loop_ends [] r h = elim h [ ]
run_event_loop_ends (stopped ∷ rest) r h = (r, refl)
run_event_loop_ends (interrupted ∷ rest) r h = run_event_loop_ends rest r h
run_event_loop_ends (wait_failed ∷ rest) r h = (r, refl)
run_event_loop_ends (ready events ∷ rest) r h =
    let (r1, first) = handle_events_end events r h.0 in
    let (r2, others) = run_event_loop_ends rest r1 h.1 in (r2, >>=-some r1 _ _ _ first others)
