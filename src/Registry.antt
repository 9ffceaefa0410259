-- ===== src/Registry.antt =====
-- The class `ClientRegistry` of src/governor/client_registry.cpp: the table of the connected caches,
-- and the handlers of its event loop.
--
-- What the system calls return is an argument: the list of the results of the calls of `accept`,
-- `read` or `write`, in order. A handler that is still in its loop at the end of the list is `none`.
pub mod Server
pub mod Table
pub mod Reading
pub mod Invariant
pub mod Handlers
pub mod Closing
pub mod Ending
pub mod Events
pub mod Send
pub mod Broadcast
pub mod Restart
use memory_aware_governor.Base.{
  ℕ, zero, suc, ◌+◌, ◌-◌, ◌%◌, Bool, true, false, Option, none, some, List, [], ◌∷◌, ◌++◌, ltb,
  ◌==◌, if◌then◌else◌, length, u64,
}
use memory_aware_governor.Base.Double.{Doubles}
use memory_aware_governor.Base.Int.{ℤ, pos}
use memory_aware_governor.Text.{Text, Result, ok, throw}
use memory_aware_governor.Protocol.{
  MessageType, register, report_size, Message, empty_message, deserialize, ntohl,
}

pub record ClientInfo : Type 0 where
  pub fd : ℕ
  pub pid : ℤ
  pub current_size_bytes : ℕ
  pub min_size_bytes : ℕ
  pub connected_at : ℕ

-- `clients_`, in some order.
abbrev pub Clients : Type 0
Clients = List (ℕ × ClientInfo)

-- `watched` are the descriptors in the epoll set besides the listening one; `opened` are those that the
-- system calls have returned, and `closed` those that were closed, the last one first.
pub record Registry : Type 0 where
  pub listen_fd : Option ℕ
  pub epoll_fd : Option ℕ
  pub running : Bool
  pub clients : Clients
  pub watched : List ℕ
  pub opened : List ℕ
  pub closed : List ℕ

abbrev pub new_registry : Registry
new_registry = record {
  listen_fd = none;
  epoll_fd = none;
  running = false;
  clients = [];
  watched = [];
  opened = [];
  closed = [];
}

-- `clients_.find(fd)`
abbrev pub find_client : ℕ → Clients → Option ClientInfo
find_client fd [] = none
find_client fd ((key, info) ∷ rest) = if key == fd then some info else find_client fd rest

-- `clients_[fd] = info`
abbrev pub put_client : ℕ → ClientInfo → Clients → Clients
put_client fd info [] = (fd, info) ∷ []
put_client fd info ((key, old) ∷ rest) =
    if key == fd then (key, info) ∷ rest else (key, old) ∷ put_client fd info rest

-- `clients_.erase(it)`
abbrev pub erase_client : ℕ → Clients → Clients
erase_client fd [] = []
erase_client fd ((key, info) ∷ rest) =
    let others = erase_client fd rest in if key == fd then others else (key, info) ∷ others

-- The epoll set without a descriptor.
abbrev pub unwatch : ℕ → List ℕ → List ℕ
unwatch fd [] = []
unwatch fd (key ∷ rest) = let others = unwatch fd rest in if key == fd then others else key ∷ others

unfoldable pub remove_client : ℕ → Registry → Registry
remove_client client_fd r = elim (find_client client_fd r.clients) [
  | none ↦ r
  | some info ↦ record r {
    watched = unwatch client_fd r.watched;
    closed = client_fd ∷ r.closed;
    clients = erase_client client_fd r.clients;
  }
]

-- The result of `accept`: a descriptor, whether it could be added to the epoll set, and the time.
pub data AcceptResult : Type 0 where
  accepted : ℕ → Bool → ℕ → AcceptResult
  would_block failed : AcceptResult

abbrev pub new_info : ℕ → ℕ → ClientInfo
new_info client_fd now = record {
  fd = client_fd;
  pid = pos 0;
  current_size_bytes = 0;
  min_size_bytes = 0;
  connected_at = now;
}

abbrev pub add_client : ℕ → ℕ → Registry → Registry
add_client client_fd now r = record r {
  watched = r.watched ++ client_fd ∷ [];
  opened = client_fd ∷ r.opened;
  clients = put_client client_fd (new_info client_fd now) r.clients;
}

-- A connection that cannot be added to the epoll set is closed.
abbrev pub drop_connection : ℕ → Registry → Registry
drop_connection client_fd r = record r {
  opened = client_fd ∷ r.opened;
  closed = client_fd ∷ r.closed;
}

unfoldable pub handle_new_connection : List AcceptResult → Registry → Option Registry
handle_new_connection [] r = none
handle_new_connection (would_block ∷ rest) r = some r
handle_new_connection (failed ∷ rest) r = handle_new_connection rest r
handle_new_connection (accepted client_fd false now ∷ rest) r =
    handle_new_connection rest (drop_connection client_fd r)
handle_new_connection (accepted client_fd true now ∷ rest) r =
    handle_new_connection rest (add_client client_fd now r)

-- The result of `read`: the bytes, an error of its own for `EAGAIN`, or the end of the stream.
pub data ReadResult : Type 0 where
  bytes : Text → ReadResult
  again error end_of_stream : ReadResult

abbrev pub set_size : Message → ClientInfo → ClientInfo
set_size msg info = record info { current_size_bytes = msg.current_size_bytes }

-- What a message changes of the entry of its client.
abbrev pub update_info : Message → ClientInfo → ClientInfo
update_info msg info = elim msg.type [
  | register ↦ record info { pid = msg.pid; current_size_bytes = msg.current_size_bytes }
  | report_size ↦ set_size msg info
  | _ ↦ info
]

abbrev pub update_found : ℕ → Message → Registry → Option ClientInfo → Registry
update_found client_fd msg r none = r
update_found client_fd msg r (some info) = record r {
  clients = put_client client_fd (update_info msg info) r.clients;
}

abbrev pub update_client : ℕ → Message → Registry → Registry
update_client client_fd msg r = update_found client_fd msg r (find_client client_fd r.clients)

-- The body of the loop behind the two reads; a text that is no message is ignored.
abbrev pub receive : ℕ → Text → Registry → Registry
receive client_fd json r = elim (deserialize json) [
  | throw e ↦ r
  | ok msg ↦ update_client client_fd msg r
]

-- How the reading of a message ends: with the bytes, or with an error or the end of the stream. The
-- results that were not used yet stand behind the bytes.
pub data Body : Type 0 where
  complete : Text → List ReadResult → Body
  broken : Body

-- The inner loop: `missing` is `msg_len - total_read`, and `buffer` holds the bytes before.
abbrev pub read_body : ℕ → Text → List ReadResult → Option Body
read_body zero buffer results = some (complete buffer results)
read_body (suc missing) buffer [] = none
read_body (suc missing) buffer (again ∷ rest) = read_body (suc missing) buffer rest
read_body (suc missing) buffer (error ∷ rest) = some broken
read_body (suc missing) buffer (end_of_stream ∷ rest) = some broken
read_body (suc missing) buffer (bytes t ∷ rest) =
    read_body (suc missing - length t) (buffer ++ t) rest

-- The outer loop. One round uses up at least one result, so that their number is enough fuel.
abbrev pub read_messages : ℕ → ℕ → List ReadResult → Registry → Option Registry
read_messages zero client_fd results r = none
read_messages (suc fuel) client_fd [] r = none
read_messages (suc fuel) client_fd (again ∷ rest) r = some r
read_messages (suc fuel) client_fd (error ∷ rest) r = some (remove_client client_fd r)
read_messages (suc fuel) client_fd (end_of_stream ∷ rest) r = some (remove_client client_fd r)
read_messages (suc fuel) client_fd (bytes (a ∷ b ∷ c ∷ d ∷ t) ∷ rest) r =
    elim (read_body (ntohl a b c d) [] rest) [
      | none ↦ none
      | some broken ↦ some (remove_client client_fd r)
      | some (complete json results) ↦
          read_messages fuel client_fd results (receive client_fd json r)
    ]
read_messages (suc fuel) client_fd (bytes t ∷ rest) r = read_messages fuel client_fd rest r

unfoldable pub handle_client_message : ℕ → List ReadResult → Registry → Option Registry
handle_client_message client_fd results r = read_messages (length results) client_fd results r

unfoldable pub get_client_count : Registry → ℕ
get_client_count r = length r.clients

abbrev pub sum_sizes : ℕ → Clients → ℕ
sum_sizes total [] = total
sum_sizes total ((key, info) ∷ rest) = sum_sizes ((total + info.current_size_bytes) % u64) rest

unfoldable pub get_total_cache_size : Registry → ℕ
get_total_cache_size r = sum_sizes 0 r.clients
