-- ===== src/Registry/Server.antt =====
-- Starting and stopping the server, and its event loop (src/governor/client_registry.cpp).
use memory_aware_governor.Base.{
  ℕ, Bool, true, false, ◌||◌, Option, none, some, List, [], ◌∷◌, ◌==◌, if◌then◌else◌, ◌>>=◌,
}
use memory_aware_governor.Registry.{
  Registry, ClientInfo, AcceptResult, ReadResult, handle_new_connection, handle_client_message,
  remove_client,
}

-- The results of the system calls of `start`.
pub record StartCalls : Type 0 where
  pub socket : Option ℕ
  pub bind : Bool
  pub listen : Bool
  pub epoll_create : Option ℕ
  pub epoll_ctl : Bool

pub data StartError : Type 0 where
  no_socket no_bind no_listen no_epoll no_watch : StartError

-- The exception of `start`, if it throws one. The last two steps: the epoll set.
abbrev pub start_epoll : StartCalls → ℕ → Registry → Registry × Option StartError
start_epoll calls fd r = elim calls.epoll_create [
  | none ↦ (record r { epoll_fd = none; closed = fd ∷ r.closed }, some no_epoll)
  | some epoll ↦
      let made = record r { epoll_fd = some epoll; opened = epoll ∷ r.opened } in
      if calls.epoll_ctl
      then (made, none)
      else (record made { closed = epoll ∷ fd ∷ r.closed }, some no_watch)
]

abbrev pub start_socket : StartCalls → Registry → Registry × Option StartError
start_socket calls r = elim calls.socket [
  | none ↦ (record r { listen_fd = none }, some no_socket)
  | some fd ↦
      let listening = record r { listen_fd = some fd; opened = fd ∷ r.opened } in
      let shut = record listening { closed = fd ∷ r.closed } in
      if calls.bind
      then if calls.listen then start_epoll calls fd listening else (shut, some no_listen)
      else (shut, some no_bind)
]

unfoldable pub start : StartCalls → Registry → Registry × Option StartError
start calls r = if r.running then (r, none) else start_socket calls (record r { running = true })

abbrev pub close_fd : Option ℕ → List ℕ → List ℕ
close_fd none closed = closed
close_fd (some fd) closed = fd ∷ closed

abbrev pub close_clients : List (ℕ × ClientInfo) → List ℕ → List ℕ
close_clients [] closed = closed
close_clients ((fd, info) ∷ rest) closed = close_clients rest (fd ∷ closed)

-- The rest of `stop` behind the join; a closed epoll set watches nothing.
abbrev pub shut : Registry → Registry
shut r = record {
  listen_fd = none;
  epoll_fd = none;
  running = false;
  clients = [];
  watched = [];
  opened = r.opened;
  closed = close_clients r.clients (close_fd r.epoll_fd (close_fd r.listen_fd r.closed));
}

-- `stop` with a thread that leaves its loop at once, or none.
unfoldable pub stop : Registry → Registry
stop r = if r.running then shut r else r

-- A ready descriptor with its flags, and the results of the calls that its handler makes.
pub record Event : Type 0 where
  pub fd : ℕ
  pub epoll_in : Bool
  pub epoll_err : Bool
  pub epoll_hup : Bool
  pub accepts : List AcceptResult
  pub reads : List ReadResult

abbrev pub is_listen_fd : ℕ → Option ℕ → Bool
is_listen_fd fd none = false
is_listen_fd fd (some listen) = fd == listen

-- The body of the loop over the ready descriptors.
unfoldable pub handle_event : Event → Registry → Option Registry
handle_event e r =
    if is_listen_fd e.fd r.listen_fd
    then handle_new_connection e.accepts r
    else if e.epoll_err || e.epoll_hup || (if e.epoll_in then false else true)
    then some (remove_client e.fd r)
    else handle_client_message e.fd e.reads r

abbrev pub handle_events : List Event → Registry → Option Registry
handle_events [] r = some r
handle_events (e ∷ es) r = handle_event e r >>= handle_events es

-- What the loop meets: `running_` is false, or `epoll_wait` is interrupted, fails, or returns.
pub data Wait : Type 0 where
  stopped interrupted wait_failed : Wait
  ready : List Event → Wait

unfoldable pub run_event_loop : List Wait → Registry → Option Registry
run_event_loop [] r = none
run_event_loop (stopped ∷ rest) r = some r
run_event_loop (interrupted ∷ rest) r = run_event_loop rest r
run_event_loop (wait_failed ∷ rest) r = some r
run_event_loop (ready events ∷ rest) r = handle_events events r >>= run_event_loop rest
