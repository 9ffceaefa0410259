-- ===== src/Registry/Handlers.antt =====
-- What the handlers of `ClientRegistry` keep, the event loop keeps (src/governor/client_registry.cpp).
use memory_aware_governor.Base.{
  ℕ, zero, suc, ◌≡◌, Bool, true, false, ◌||◌, Option, none, some, List, [], ◌∷◌, if◌then◌else◌,
  length, ◌>>=◌,
}
use memory_aware_governor.Text.{Text, Result, ok, throw}
use memory_aware_governor.Protocol.{Message, deserialize, ntohl}
use memory_aware_governor.Registry.{
  Registry, AcceptResult, accepted, would_block, failed, ReadResult, bytes, again, error,
  end_of_stream, Body, complete, broken, find_client, remove_client, add_client, drop_connection,
  handle_new_connection, update_client, receive, read_body, read_messages, handle_client_message,
}
use memory_aware_governor.Registry.Server.{
  Event, handle_event, handle_events, Wait, stopped, interrupted, wait_failed, ready,
  run_event_loop, is_listen_fd,
}

-- The accepted descriptors are those of no connected client.
abbrev pub Fresh : List AcceptResult → Registry → Type 0
Fresh [] r = Unit {0}
Fresh (would_block ∷ rest) r = Unit {0}
Fresh (failed ∷ rest) r = Fresh rest r
Fresh (accepted fd false now ∷ rest) r = Fresh rest (drop_connection fd r)
Fresh (accepted fd true now ∷ rest) r =
    (find_client fd r.clients ≡ none) × Fresh rest (add_client fd now r)

-- What holds of the registry that a handler returns, if it has returned.
abbrev pub After : (Registry → Type 0) → Option Registry → Type 0
After P none = Unit {0}
After P (some r) = P r

-- At each event the descriptors that are accepted are fresh in the registry of that moment.
abbrev pub FreshEvents : List Event → Registry → (Registry → Type 0) → Type 0
FreshEvents [] r Next = Next r
FreshEvents (e ∷ es) r Next =
    Fresh e.accepts r × After (λ r. FreshEvents es r Next) (handle_event e r)

abbrev pub FreshRun : List Wait → Registry → Type 0
FreshRun [] r = Unit {0}
FreshRun (stopped ∷ rest) r = Unit {0}
FreshRun (interrupted ∷ rest) r = FreshRun rest r
FreshRun (wait_failed ∷ rest) r = Unit {0}
FreshRun (ready events ∷ rest) r = FreshEvents events r (FreshRun rest)

-- A property of the registry that the four changes of the table keep.
module _ (P : Registry → Type 0) (removes : (fd : ℕ) (r : Registry) → P r → P (remove_client fd r))
    (updates : (fd : ℕ) (m : Message) (r : Registry) → P r → P (update_client fd m r))
    (drops : (fd : ℕ) (r : Registry) → P r → P (drop_connection fd r))
    (adds : (fd now : ℕ) (r : Registry)
      → find_client fd r.clients ≡ none
      → P r
      → P (add_client fd now r)) where
  receive-keeps : (fd : ℕ) (json : Text) (r : Registry) → P r → P (receive fd json r)
  receive-keeps fd json r h = by_result (deserialize json)
    where
      by_result :
          (res : Result Message) → P (elim res [ throw e ↦ r | ok msg ↦ update_client fd msg r ])
      by_result (throw e) = h
      by_result (ok m) = updates fd m r h

  handle_new_connection-keeps :
      (results : List AcceptResult) (r : Registry)
      → Fresh results r
      → P r
      → After P (handle_new_connection results r)
  unfolding handle_new_connection
  handle_new_connection-keeps [] r f h = tt
  handle_new_connection-keeps (would_block ∷ rest) r f h = h
  handle_new_connection-keeps (failed ∷ rest) r f h = handle_new_connection-keeps rest r f h
  handle_new_connection-keeps (accepted fd false now ∷ rest) r f h =
      handle_new_connection-keeps rest (drop_connection fd r) f (drops fd r h)
  handle_new_connection-keeps (accepted fd true now ∷ rest) r f h =
      handle_new_connection-keeps rest (add_client fd now r) f.1 (adds fd now r f.0 h)

  read_messages-keeps :
      (fuel fd : ℕ) (results : List ReadResult) (r : Registry)
      → P r
      → After P (read_messages fuel fd results r)
  read_messages-keeps zero fd results r h = tt
  read_messages-keeps (suc fuel) fd [] r h = tt
  read_messages-keeps (suc fuel) fd (again ∷ rest) r h = h
  read_messages-keeps (suc fuel) fd (error ∷ rest) r h = removes fd r h
  read_messages-keeps (suc fuel) fd (end_of_stream ∷ rest) r h = removes fd r h
  read_messages-keeps (suc fuel) fd (bytes [] ∷ rest) r h = read_messages-keeps fuel fd rest r h
  read_messages-keeps (suc fuel) fd (bytes (a ∷ []) ∷ rest) r h =
      read_messages-keeps fuel fd rest r h
  read_messages-keeps (suc fuel) fd (bytes (a ∷ b ∷ []) ∷ rest) r h =
      read_messages-keeps fuel fd rest r h
  read_messages-keeps (suc fuel) fd (bytes (a ∷ b ∷ c ∷ []) ∷ rest) r h =
      read_messages-keeps fuel fd rest r h
  read_messages-keeps (suc fuel) fd (bytes (a ∷ b ∷ c ∷ d ∷ t) ∷ rest) r h =
      elim (read_body (ntohl a b c d) [] rest)
        as (λ (o : Option Body). After P (elim o [
          | none ↦ none
          | some broken ↦ some (remove_client fd r)
          | some (complete json results) ↦ read_messages fuel fd results (receive fd json r)
        ])) [
          | none ↦ tt
          | some broken ↦ removes fd r h
          | some (complete json results) ↦
              read_messages-keeps fuel fd results (receive fd json r) (receive-keeps fd json r h)
        ]

  pub handle_event-keeps :
      (e : Event) (r : Registry) → Fresh e.accepts r → P r → After P (handle_event e r)
  unfolding handle_event handle_client_message
  handle_event-keeps e r f h =
      by_tests (is_listen_fd e.fd r.listen_fd)
        (e.epoll_err || e.epoll_hup || (if e.epoll_in then false else true))
    where
      by_tests :
          (listening lost : Bool)
          → After P (
              if listening
              then handle_new_connection e.accepts r
              else if lost
              then some (remove_client e.fd r)
              else handle_client_message e.fd e.reads r)
      by_tests true lost = handle_new_connection-keeps e.accepts r f h
      by_tests false true = removes e.fd r h
      by_tests false false = read_messages-keeps (length e.reads) e.fd e.reads r h

  handle_events-keeps :
      (es : List Event) (r : Registry) (Next : Registry → Type 0) (f : Registry → Option Registry)
      → ((r : Registry) → Next r → P r → After P (f r))
      → FreshEvents es r Next
      → P r
      → After P (handle_events es r >>= f)
  handle_events-keeps [] r Next f next n h = next r n h
  handle_events-keeps (e ∷ es) r Next f next n h =
      chained (handle_event e r) (λ r. handle_events-keeps es r Next f next) n.1
        (handle_event-keeps e r n.0 h)
    where
      chained :
          (o : Option Registry)
          → ((r : Registry) → FreshEvents es r Next → P r → After P (handle_events es r >>= f))
          → After (λ r. FreshEvents es r Next) o
          → After P o
          → After P ((o >>= handle_events es) >>= f)
      chained none go n h = tt
      chained (some r) go n h = go r n h

  pub run_event_loop-keeps :
      (ws : List Wait) (r : Registry) → FreshRun ws r → P r → After P (run_event_loop ws r)
  unfolding run_event_loop
  run_event_loop-keeps [] r f h = tt
  run_event_loop-keeps (stopped ∷ rest) r f h = h
  run_event_loop-keeps (interrupted ∷ rest) r f h = run_event_loop-keeps rest r f h
  run_event_loop-keeps (wait_failed ∷ rest) r f h = h
  run_event_loop-keeps (ready events ∷ rest) r f h =
      handle_events-keeps events r (FreshRun rest) (run_event_loop rest)
        (λ r f h. run_event_loop-keeps rest r f h) f h
