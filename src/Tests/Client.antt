-- ===== src/Tests/Client.antt =====
-- `GovernorClient` of src/client/governor_client.cpp with an owner that keeps the last target.
use memory_aware_governor.Base.{
  ℕ, ◌≡◌, refl, true, false, none, some, List, [], ◌∷◌, arith, length, inr, map,
}
use memory_aware_governor.Text.{Text, codes, out_of_range, stoull, stoi, show_from, show, show_int}
use memory_aware_governor.Protocol.{
  Message, shrink, empty_message, serialize, extract_string, deserialize, frame, htonl,
}
use memory_aware_governor.Protocol.Framing.{payload}
use memory_aware_governor.Client.{
  Client, Callbacks, ConnectCalls, connect, disconnect, send_message, register_cache, report_size,
  start_listening, stop_listening, process_message,
}
use memory_aware_governor.Client.Backoff.{delays, backoff_doubles}
use memory_aware_governor.Client.Commands.{parts_results, message_dispatched, refused_terminates}
use memory_aware_governor.Client.Leak.{Reconnection, reconnection_round, reconnect_leaks}
use memory_aware_governor.Client.Listener.{
  Loop, Round, goes_on, terminated, after_command, listener_round, run_listener, start_loop,
}

program : Unit {0}
unfolding stoull stoi show_from show show_int serialize extract_string deserialize frame connect
    disconnect send_message register_cache report_size start_listening stop_listening
    process_message listener_round
program = tt

abbrev callbacks : Callbacks ℕ
callbacks = record { shrink_callback = some (λ target s. some (s.0, target)); grow_callback = none }

abbrev up : Client
up = record { sock_fd = some 9; connected = true; listening = true; closed = []; sent = [] }

abbrev down : Client
down = record { sock_fd = none; connected = false; listening = true; closed = []; sent = [] }

abbrev refused : ConnectCalls
refused = record { socket = some 8; connects = false }

abbrev command : Message
command = record empty_message { type = shrink; target_bytes = 512 }

abbrev behind_brace : Text → Text
behind_brace [] = []
behind_brace (c ∷ t) = t

-- A round that reads a text that begins with a brace, in two parts.
abbrev reading : Text → Round
reading t = record {
  calls = refused;
  head = some (htonl (length t));
  body = parts_results ((b'{', []) ∷ parts t);
}
  where
    parts : Text → List (ℕ × Text)
    parts t = elim (behind_brace t) [ [] ↦ [] | c ∷ u ↦ (c, u) ∷ [] ]

message_dispatched_example :
    listener_round callbacks (reading (payload command)) (start_loop up 0)
    ≡ after_command callbacks (start_loop up 0) (process_message callbacks command (up, 0))
unfolding program
message_dispatched_example =
    message_dispatched callbacks (reading (payload command)) (start_loop up 0) command refl refl
      (omega arith, omega arith, omega arith, omega arith)
      (record {
        parts = (b'{', []) ∷ (b'"', behind_brace (behind_brace (payload command))) ∷ [];
        head = refl;
        body = refl;
        whole = refl;
      })

-- The process identifier does not fit.
abbrev bad : Text
bad = codes "{\"pid\":2147483648}"

refused_terminates_example : listener_round callbacks (reading bad) (start_loop up 0) ≡ terminated
unfolding program
refused_terminates_example =
    refused_terminates callbacks (reading bad) (start_loop up 0) bad out_of_range refl refl
      (omega arith) (omega arith) refl
      (record {
        parts = (b'{', []) ∷ (b'"', behind_brace (behind_brace bad)) ∷ [];
        head = refl;
        body = refl;
        whole = refl;
      })

abbrev failing : Round
failing = record { calls = refused; head = none; body = [] }

abbrev seven : List Round
seven = failing ∷ failing ∷ failing ∷ failing ∷ failing ∷ failing ∷ failing ∷ []

seven_delays : delays 0 7 [] ≡ 30 ∷ 30 ∷ 16 ∷ 8 ∷ 4 ∷ 2 ∷ 1 ∷ []
seven_delays = refl

backoff_doubles_example :
    (l1 : Loop ℕ) × (run_listener callbacks seven (start_loop down 0) ≡ goes_on l1)
    × (l1.slept ≡ delays 0 (length seven) [])
    × (l1.owner ≡ 0)
    × (l1.client.connected ≡ false)
backoff_doubles_example =
    backoff_doubles callbacks seven down 0
      (inr refl, (inr refl, (inr refl, (inr refl, (inr refl, (inr refl, (inr refl, tt))))))) refl
      refl

-- Two connections to new sockets, the first one closed by the daemon, the second one with an error.
abbrev reconnections : List Reconnection
reconnections =
    record { fd = 10; head = some []; body = []; lost = tt }
    ∷ record { fd = 11; head = none; body = []; lost = tt }
    ∷ []

reconnect_leaks_example :
    (l1 : Loop ℕ) × (run_listener callbacks
        (record failing { head = some [] } ∷ map reconnection_round reconnections)
        (start_loop up 0)
      ≡ goes_on l1)
    × (l1.client.sock_fd ≡ some 11)
    × (l1.client.connected ≡ false)
    × (l1.client.closed ≡ [])
    × (l1.client.sent ≡ [])
reconnect_leaks_example =
    reconnect_leaks callbacks (record failing { head = some [] }) reconnections (start_loop up 0)
      refl refl tt
