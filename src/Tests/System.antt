-- ===== src/Tests/System.antt =====
-- A SHRINK by a quarter for a client of 400 bytes, from the broadcast to a cache of two entries.
use mathlib.Core.Path.{subst}
use memory_aware_governor.Base.{
  zero, suc, ◌-◌, ap, ◌++◌, ℕ, ◌*◌, ◌/◌, ◌≤◌, ◌≡◌, refl, true, none, some, List, [], ◌∷◌, arith,
  length, map,
}
use memory_aware_governor.Base.Int.{pos}
use memory_aware_governor.Client.{Client, error, wrote, send_message, report_size}
use memory_aware_governor.Client.Commands.{parts_results}
use memory_aware_governor.Client.Listener.{
  Loop, Round, goes_on, listener_round, run_listener, start_loop,
}
use memory_aware_governor.Governed.{callbacks}
use memory_aware_governor.Governed.Commands.{Ends}
use memory_aware_governor.Governed.Tracking.{Incoming, Writable, follow_all, commands_followed}
use memory_aware_governor.Lru.{Cache}
use memory_aware_governor.Lru.Refinement.{Refines}
use memory_aware_governor.Lru.Spec.{resize_spec, take}
use memory_aware_governor.Protocol.{MessageType, empty_message, Message, serialize, frame, htonl}
use memory_aware_governor.Protocol.Framing.{payload, frame-length}
use memory_aware_governor.Client.Sending.{Takes, register_message, report_message, add_sent}
use memory_aware_governor.Registry.{
  Registry, ClientInfo, new_info, new_registry, find_client, handle_client_message,
}
use memory_aware_governor.Registry.Reading.{Piece, delivery_results, ending_result, caught_up}
use memory_aware_governor.Registry.Send.{shrink_command, send_to_client}
use memory_aware_governor.System.Reports.{Sent, stream, talk, deliveries, reports_reach_registry}
use memory_aware_governor.Registry.Send
use memory_aware_governor.System.Cycle
use memory_aware_governor.System.{shrink_reaches_cache}
use memory_aware_governor.Tests.{hundredths}
use memory_aware_governor.Tests.Lru.{two, two_contents, two-Refines}
use memory_aware_governor.Text.{Text, show_from, show, show_int}
use native.Mathlib.Decide.{ℕ_discrete as dec}

program : Unit {0}
unfolding show_from show show_int serialize frame send_message report_size
program = tt

abbrev info : ClientInfo
info = record (new_info 5 0) { current_size_bytes = 400 }

abbrev command : Message
command = shrink_command hundredths 25 info

abbrev up : Client
up = record { sock_fd = some 9; connected = true; listening = true; closed = []; sent = [] }

abbrev behind_brace : Text → Text
behind_brace [] = []
behind_brace (c ∷ t) = t

abbrev parts : List (ℕ × Text)
parts = (b'{', behind_brace (payload command)) ∷ []

abbrev round : Round
round = record {
  calls = record { socket = none; connects = true };
  head = some (htonl (length (payload command)));
  body = parts_results parts;
}

-- The report fails at once.
fails : Ends (pos 10) (error ∷ []) up
unfolding program
fails n = (_, refl)

shrink_reaches_cache_example :
    (c1 : Cache ℕ ℕ) × (client1 : Client) × (listener_round
        (callbacks dec 256 (pos 10) (error ∷ []))
        round
        (start_loop up two)
      ≡ goes_on (record (start_loop up two) { client = client1; owner = c1 }))
    × Refines dec c1 (resize_spec (command.target_bytes / 256) two_contents)
    × (c1.size * 256 ≤ command.target_bytes)
unfolding program
shrink_reaches_cache_example =
    shrink_reaches_cache hundredths dec 256 (pos 10) (error ∷ []) 25 info round (start_loop up two)
      two_contents (omega arith) refl refl
      (record { parts = parts; head = refl; body = refl; whole = refl }) two-Refines (omega arith)
      fails (omega arith) (omega arith)

-- A client that registers with 400 bytes and then reports 128.
abbrev whole_piece : Message → List Piece
whole_piece m = record { waits = 1; first = b'{'; others = behind_brace (payload m) } ∷ []

abbrev registration : Sent (register_message (pos 10))
unfolding program
registration = record {
  size = 400;
  writes = wrote 40 ∷ wrote 200 ∷ [];
  pieces = whole_piece (register_message (pos 10) 400);
  in_range = (omega arith, omega arith, omega arith, omega arith);
  taken = tt;
  whole = refl;
}

abbrev smaller : Sent (report_message (pos 10))
unfolding program
smaller = record {
  size = 128;
  writes = wrote 200 ∷ [];
  pieces = whole_piece (report_message (pos 10) 128);
  in_range = (omega arith, omega arith, omega arith, omega arith);
  taken = tt;
  whole = refl;
}

abbrev table : Registry
table = record new_registry { clients = (5, new_info 5 0) ∷ []; watched = 5 ∷ [] }

reports_reach_registry_example :
    (after : Registry) × (talk (pos 10) registration (smaller ∷ []) up
      ≡ some (add_sent (stream (deliveries (pos 10) registration (smaller ∷ []))) up))
    × (handle_client_message 5
          (delivery_results
            (deliveries (pos 10) registration (smaller ∷ []))
            (ending_result caught_up ∷ []))
          table
        ≡ some after)
    × (find_client 5 after.clients
        ≡ some (record (new_info 5 0) { pid = pos 10; current_size_bytes = 128 }))
unfolding program
reports_reach_registry_example =
    reports_reach_registry (pos 10) registration (smaller ∷ []) up 5 [] table (new_info 5 0) refl
      refl

-- The 128 bytes are reported, and a SHRINK by a quarter leaves room for one entry of 64 bytes.
abbrev info1 : ClientInfo
info1 = new_info 5 0

abbrev reported1 : Client
reported1 = Cycle.reported (pos 10) registration (smaller ∷ []) up

abbrev command1 : Message
command1 = shrink_command hundredths 25 (record info1 { pid = pos 10; current_size_bytes = 128 })

fails1 : Ends (pos 10) (error ∷ []) reported1
unfolding program
fails1 n = (_, refl)

-- Another client, that has said nothing, comes first in the table.
abbrev pair_table : Registry
pair_table = record new_registry {
  clients = (4, new_info 4 0) ∷ (5, info1) ∷ [];
  watched = 5 ∷ 4 ∷ [];
}

abbrev sends1 : ℕ → List Send.WriteResult
sends1 fd = Send.again ∷ Send.wrote 3 ∷ Send.wrote 300 ∷ []

reported_cache_shrinks_example :
    (c1 : Cache ℕ ℕ) × (client1 : Client) × (Cycle.turn hundredths dec 64
        (pos 10)
        registration
        (smaller ∷ [])
        5
        25
        sends1
        (2 ∷ 10 ∷ [])
        (error ∷ [])
        pair_table
        up
        two
      ≡ some (goes_on (record (start_loop reported1 two) { client = client1; owner = c1 })))
    × (up.sent ++ Cycle.read_bytes (Cycle.reads (pos 10) registration (smaller ∷ []))
        ≡ reported1.sent)
    × Refines dec c1 (resize_spec (9600 / 100 / 64) two_contents)
    × (c1.size * 64 ≤ 9600 / 100)
unfolding program
reported_cache_shrinks_example =
    Cycle.reported_cache_shrinks hundredths dec 64 (pos 10) registration (smaller ∷ []) 5 info1 25
      sends1 (2 ∷ 10 ∷ []) (error ∷ []) pair_table up two two_contents refl refl refl (tt, (tt, tt))
      (omega arith) two-Refines (omega arith) fails1 (omega arith) (omega arith)

-- A message that arrives in one part.
abbrev pub message_parts : Message → List (ℕ × Text)
message_parts m = (b'{', behind_brace (payload m)) ∷ []

abbrev pub whole_round : Message → Round
whole_round m = record {
  calls = record { socket = none; connects = true };
  head = some (htonl (length (payload m)));
  body = parts_results (message_parts m);
}

abbrev growth : Message
growth = record empty_message { type = MessageType.grow; target_bytes = 1000 }

abbrev first_incoming : Incoming
unfolding program
first_incoming = record {
  message = command1;
  round = whole_round command1;
  in_range = (omega arith, omega arith, omega arith, omega arith);
  reads = record { parts = message_parts command1; head = refl; body = refl; whole = refl };
}

abbrev second_incoming : Incoming
unfolding program
second_incoming = record {
  message = growth;
  round = whole_round growth;
  in_range = (omega arith, omega arith, omega arith, omega arith);
  reads = record { parts = message_parts growth; head = refl; body = refl; whole = refl };
}

abbrev incoming : List Incoming
incoming = first_incoming ∷ second_incoming ∷ []

-- One write takes a report.
one_write : (k : ℕ) → k ≤ 300 → Takes k (wrote 300 ∷ [])
one_write zero h = tt
one_write (suc k) h = subst (λ (n : ℕ). Takes n []) (nothing_left k h) tt
  where
    nothing_left : (k : ℕ) → suc k ≤ 300 → 0 ≡ k - 299
    nothing_left k h = omega (arith, h)

pub enough_written : Writable (pos 10) (wrote 300 ∷ [])
enough_written n h =
    let m : Message = report_message (pos 10) n in
    let (a, b, c, d, framed, _, short) =
      frame-length m (omega arith, omega arith, h, omega arith) in
    one_write (length (frame m)) (omega (arith, ap length framed, short))

commands_followed_example :
    (l1 : Loop (Cache ℕ ℕ)) × (run_listener
        (callbacks dec 64 (pos 10) (wrote 300 ∷ []))
        (map (λ (i : Incoming). i.round) incoming)
        (start_loop up two)
      ≡ goes_on l1)
    × (l1.client.connected ≡ true)
    × Refines dec l1.owner (follow_all 64 (map (λ (i : Incoming). i.message) incoming) two_contents)
commands_followed_example =
    commands_followed dec 64 (pos 10) (wrote 300 ∷ []) incoming (start_loop up two) two_contents
      refl refl two-Refines (omega arith) enough_written (omega arith)

-- The key used last stays, and the capacity is 15 at the end.
followed :
    follow_all 64 (map (λ (i : Incoming). i.message) incoming) two_contents
    ≡ record two_contents { entries = (7, 70) ∷ []; limit = 15 }
unfolding program resize_spec take
followed = refl
