-- ===== src/Client.antt =====
-- The class `GovernorClient` of src/client/governor_client.cpp: the connection of a cache to the daemon.
--
-- What the system calls return is an argument. `none` says that a call does not come to its end with
-- the results given, or that a callback faults.
pub mod Listener
pub mod Commands
pub mod Backoff
pub mod Leak
pub mod Sending
use memory_aware_governor.Base.{
  ℕ, zero, suc, ◌-◌, Bool, true, false, Option, none, some, List, [], ◌∷◌, ◌++◌, if◌then◌else◌,
}
use memory_aware_governor.Base.Int.{ℤ}
use memory_aware_governor.Text.{Text}
use memory_aware_governor.Protocol.{
  MessageType, register, shrink, grow, Message, empty_message, frame,
}
use memory_aware_governor.Registry.Send.{split_text}

-- `sock_fd` is `none` for -1; `closed` are the descriptors that were closed, the last one first, and
-- `sent` the bytes that were written to the sockets so far.
pub record Client : Type 0 where
  pub sock_fd : Option ℕ
  pub connected : Bool
  pub listening : Bool
  pub closed : List ℕ
  pub sent : Text

abbrev pub new_client : Client
new_client = record { sock_fd = none; connected = false; listening = false; closed = []; sent = [] }

-- The results of `socket` and `::connect`.
pub record ConnectCalls : Type 0 where
  pub socket : Option ℕ
  pub connects : Bool

abbrev pub connect_socket : ConnectCalls → Client → Client × Bool
connect_socket calls c = elim calls.socket [
  | none ↦ (record c { sock_fd = none }, false)
  | some fd ↦
      if calls.connects
      then (record c { sock_fd = some fd; connected = true }, true)
      else (record c { sock_fd = none; closed = fd ∷ c.closed }, false)
]

unfoldable pub connect : ConnectCalls → Client → Client × Bool
connect calls c = if c.connected then (c, true) else connect_socket calls c

abbrev pub close_socket : Client → Client
close_socket c = elim c.sock_fd [
  | none ↦ c
  | some fd ↦ record c { sock_fd = none; closed = fd ∷ c.closed }
]

unfoldable pub disconnect : Client → Client
disconnect c = record (close_socket c) { connected = false }

-- The result of `write`: a number of bytes, or an error.
pub data WriteResult : Type 0 where
  wrote : ℕ → WriteResult
  error : WriteResult

abbrev fail_send : Client → Client × Bool
fail_send c = (record c { connected = false }, false)

-- The loop of `send_message`: `left` is what is not written yet.
abbrev pub send_loop : Text → List WriteResult → Client → Option (Client × Bool)
send_loop [] results c = some (c, true)
send_loop (b ∷ left) [] c = none
send_loop (b ∷ left) (error ∷ rest) c = some (fail_send c)
send_loop (b ∷ left) (wrote zero ∷ rest) c = some (fail_send c)
send_loop (b ∷ left) (wrote (suc n) ∷ rest) c =
    let parts = split_text n left in
    send_loop parts.1 rest (record c { sent = c.sent ++ b ∷ parts.0 })

unfoldable pub send_message : Message → List WriteResult → Client → Option (Client × Bool)
send_message msg results c =
    if c.connected then send_loop (frame msg) results c else some (c, false)

-- `pid` is the result of `getpid()`.
unfoldable pub register_cache : ℤ → ℕ → List WriteResult → Client → Option (Client × Bool)
register_cache pid size results c =
    send_message (record empty_message { type = register; pid = pid; current_size_bytes = size })
      results c

unfoldable pub report_size : ℤ → ℕ → List WriteResult → Client → Option (Client × Bool)
report_size pid size results c =
    send_message
      (record empty_message {
        type = MessageType.report_size;
        pid = pid;
        current_size_bytes = size;
      })
      results c

unfoldable pub start_listening : Client → Client
start_listening c = if c.listening then c else record c { listening = true }

unfoldable pub stop_listening : Client → Client
stop_listening c =
    if c.listening
    then record (close_socket (record c { listening = false })) { connected = false }
    else c

-- The destructor.
unfoldable pub destroy : Client → Client
destroy c = disconnect (stop_listening c)

-- A callback acts on the owner of the client and may send with the client.
abbrev pub Callback : Type 0 → Type 0
Callback S = ℕ → Client × S → Option (Client × S)

pub record Callbacks (S : Type 0) : Type 0 where
  pub shrink_callback : Option (Callback S)
  pub grow_callback : Option (Callback S)

abbrev pub call : {S : Type 0} → Option (Callback S) → ℕ → Client × S → Option (Client × S)
call none target s = some s
call (some callback) target s = callback target s

unfoldable pub process_message :
    {S : Type 0} → Callbacks S → Message → Client × S → Option (Client × S)
process_message callbacks msg s = elim msg.type [
  | shrink ↦ call callbacks.shrink_callback msg.target_bytes s
  | grow ↦ call callbacks.grow_callback msg.target_bytes s
  | _ ↦ some s
]
