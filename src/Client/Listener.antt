-- ===== src/Client/Listener.antt =====
-- The loop of the listener thread (`listener_loop` of src/client/governor_client.cpp).
use memory_aware_governor.Base.{
  ℕ, zero, suc, ◌-◌, ◌*◌, Bool, true, false, ◌||◌, Option, none, some, List, [], ◌∷◌, ◌++◌,
  if◌then◌else◌, length, ltb, leb, ◌==◌,
}
use memory_aware_governor.Text.{Text, Result, ok, throw}
use memory_aware_governor.Protocol.{Message, deserialize, ntohl}
use memory_aware_governor.Client.{Client, Callbacks, ConnectCalls, connect, process_message}

-- The client, the owner of its callbacks, the backoff, and the sleeps in seconds, the last one first.
pub record Loop (S : Type 0) : Type 0 where
  pub client : Client
  pub owner : S
  pub backoff_seconds : ℕ
  pub slept : List ℕ

-- What the system calls of a round return, as far as it makes them: those of `connect`, the bytes
-- of the length, and the parts of the payload. `none` stands for -1, an empty text for the end of
-- the stream.
pub record Round : Type 0 where
  pub calls : ConnectCalls
  pub head : Option Text
  pub body : List (Option Text)

-- How a round ends. An exception that nothing catches terminates the process; a round is `stuck`
-- while it waits for more bytes, or if a callback is or faults.
pub data Outcome (S : Type 0) : Type 0 where
  goes_on : Loop S → Outcome S
  finished : Loop S → Outcome S
  terminated stuck : Outcome S

pub data Payload : Type 0 where
  complete : Text → Payload
  broken : Payload

-- The loop that reads the payload: `missing` is `len - total_read`.
abbrev pub read_payload : ℕ → Text → List (Option Text) → Option Payload
read_payload zero payload results = some (complete payload)
read_payload (suc missing) payload [] = none
read_payload (suc missing) payload (none ∷ rest) = some broken
read_payload (suc missing) payload (some [] ∷ rest) = some broken
read_payload (suc missing) payload (some (c ∷ t) ∷ rest) =
    read_payload (missing - length t) (payload ++ c ∷ t) rest

-- `std::min(30, backoff_seconds * 2)`
abbrev pub next_backoff : ℕ → ℕ
next_backoff n = if leb 30 (n * 2) then 30 else n * 2

module _ {S : Type 0} (callbacks : Callbacks S) where
  abbrev pub set_client : Loop S → Client → Loop S
  set_client l c = record l { client = c }

  abbrev pub drop_connection : Loop S → Outcome S
  drop_connection l = goes_on (set_client l (record (l.client) { connected = false }))

  abbrev pub after_command : Loop S → Option (Client × S) → Outcome S
  after_command l none = stuck
  after_command l (some (c, s)) = goes_on (record l { client = c; owner = s })

  abbrev pub dispatch : Loop S → Result Message → Outcome S
  dispatch l (throw e) = terminated
  dispatch l (ok msg) = after_command l (process_message callbacks msg (l.client, l.owner))

  abbrev pub after_payload : Loop S → Option Payload → Outcome S
  after_payload l none = stuck
  after_payload l (some broken) = drop_connection l
  after_payload l (some (complete payload)) = dispatch l (deserialize payload)

  -- The part of the round that reads a message.
  abbrev pub read_message : Option Text → List (Option Text) → Loop S → Outcome S
  read_message (some (a ∷ b ∷ c ∷ d ∷ [])) body l =
      let len = ntohl a b c d in
      if len == 0 || ltb 65536 len
      then drop_connection l
      else after_payload l (read_payload len [] body)
  read_message head body l = drop_connection l

  abbrev pub after_connect : Round → Loop S → Client × Bool → Outcome S
  after_connect round l (c, true) =
      read_message round.head round.body (record l { client = c; backoff_seconds = 1 })
  after_connect round l (c, false) = goes_on (record l {
    client = c;
    slept = l.backoff_seconds ∷ l.slept;
    backoff_seconds = next_backoff l.backoff_seconds;
  })

  -- One round of the loop.
  unfoldable pub listener_round : Round → Loop S → Outcome S
  listener_round round l =
      if l.client.listening
      then if l.client.connected
        then read_message round.head round.body l
        else after_connect round l (connect round.calls l.client)
      else finished l

  abbrev pub and_then : (Loop S → Outcome S) → Outcome S → Outcome S
  and_then f (goes_on l) = f l
  and_then f (finished l) = finished l
  and_then f terminated = terminated
  and_then f stuck = stuck

  abbrev pub run_listener : List Round → Loop S → Outcome S
  run_listener [] l = goes_on l
  run_listener (round ∷ rounds) l = and_then (run_listener rounds) (listener_round round l)

abbrev pub start_loop : {S : Type 0} → Client → S → Loop S
start_loop c s = record { client = c; owner = s; backoff_seconds = 1; slept = [] }
