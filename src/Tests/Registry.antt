-- ===== src/Tests/Registry.antt =====
-- `ClientRegistry` of src/governor/client_registry.cpp with a table of two clients.
use memory_aware_governor.Base.{ℕ, ◌≡◌, refl, true, false, none, some, List, [], ◌∷◌, arith}
use memory_aware_governor.Base.Int.{pos}
use memory_aware_governor.Text.{Text, stoull, stoi, show_from, show, show_int}
use memory_aware_governor.Protocol.{
  Message, MessageType, empty_message, serialize, extract_string, deserialize, frame,
}
use memory_aware_governor.Protocol.Framing.{payload}
use memory_aware_governor.Registry.{
  ReadResult, Registry, ClientInfo, accepted, would_block, find_client, remove_client,
  handle_new_connection, handle_client_message, get_client_count, get_total_cache_size,
}
use memory_aware_governor.Registry.Broadcast.{frames, broadcast-frames}
use memory_aware_governor.Registry.Events.{event_loop_keeps_registry}
use memory_aware_governor.Registry.Ending.{Served}
use memory_aware_governor.Registry.Invariant.{IsRegistry}
use memory_aware_governor.Registry.Reading.{
  Delivery, delivery_results, ending_result, caught_up, closed_off,
}
use memory_aware_governor.Registry.Send.{
  WriteResult, wrote, send_to_client, shrink_command, grow_command, broadcast_shrink,
  broadcast_grow,
}
use memory_aware_governor.Registry.Server.{Event, ready, stopped, handle_event, run_event_loop}
use memory_aware_governor.Registry.Table.{updated, messages_applied, lost_removed}
use memory_aware_governor.Tests.{hundredths}

program : Unit {0}
unfolding stoull stoi show_from show show_int serialize extract_string deserialize frame
    remove_client handle_new_connection handle_client_message get_client_count get_total_cache_size
    send_to_client broadcast_shrink broadcast_grow handle_event run_event_loop
program = tt

abbrev client : ℕ → ℕ → ClientInfo
client fd size = record {
  fd = fd;
  pid = pos 10;
  current_size_bytes = size;
  min_size_bytes = 0;
  connected_at = 0;
}

abbrev two : Registry
two = record {
  listen_fd = some 3;
  epoll_fd = some 4;
  running = true;
  clients = (5, client 5 1000) ∷ (6, client 6 400) ∷ [];
  watched = 5 ∷ 6 ∷ [];
  opened = 6 ∷ 5 ∷ 4 ∷ 3 ∷ [];
  closed = [];
}

total : (get_client_count two ≡ 2) × (get_total_cache_size two ≡ 1400)
unfolding program
total = (refl, refl)

abbrev report : Message
report = record empty_message {
  type = MessageType.report_size;
  pid = pos 10;
  current_size_bytes = 77;
}

abbrev behind_brace : Text → Text
behind_brace [] = []
behind_brace (c ∷ t) = t

-- The whole payload in one piece, after the socket was found empty once.
abbrev delivery : Delivery
unfolding program
delivery = record {
  message = report;
  pieces = record { waits = 1; first = b'{'; others = behind_brace (payload report) } ∷ [];
  in_range = (omega arith, omega arith, omega arith, omega arith);
  whole = refl;
}

messages_applied_example :
    (after : Registry) × (handle_client_message 5
        (delivery_results (delivery ∷ []) (ending_result caught_up ∷ []))
        two
      ≡ some after)
    × (find_client 5 after.clients ≡ some (updated (delivery ∷ []) (client 5 1000)))
    × (find_client 6 after.clients ≡ find_client 6 two.clients)
messages_applied_example =
    messages_applied 5 (delivery ∷ []) [] two (client 5 1000) 6 refl (omega arith)

lost_removed_example :
    (after : Registry) × (handle_client_message 5
        (delivery_results (delivery ∷ []) (ending_result closed_off ∷ []))
        two
      ≡ some after)
    × (find_client 5 after.clients ≡ none)
    × (find_client 6 after.clients ≡ find_client 6 two.clients)
lost_removed_example = lost_removed 5 (delivery ∷ []) closed_off [] two 6 (λ e. cc e) (omega arith)

-- A third client connects, and the client 6 hangs up.
abbrev connection : Event
connection = record {
  fd = 3;
  epoll_in = true;
  epoll_err = false;
  epoll_hup = false;
  accepts = accepted 7 true 1 ∷ would_block ∷ [];
  reads = ReadResult.again ∷ [];
}

abbrev hang_up : Event
hang_up = record {
  fd = 6;
  epoll_in = true;
  epoll_err = false;
  epoll_hup = true;
  accepts = would_block ∷ [];
  reads = ReadResult.again ∷ [];
}

abbrev events : List Event
events = connection ∷ hang_up ∷ []

looped :
    run_event_loop (ready events ∷ stopped ∷ []) two
    ≡ some (record two {
      clients =
          (5, client 5 1000)
          ∷ (
            7,
            record {
              fd = 7;
              pid = pos 0;
              current_size_bytes = 0;
              min_size_bytes = 0;
              connected_at = 1;
            },
          )
          ∷ [];
      watched = 5 ∷ 7 ∷ [];
      opened = 7 ∷ 6 ∷ 5 ∷ 4 ∷ 3 ∷ [];
      closed = 6 ∷ [];
    })
unfolding program
looped = refl

connection-Served : Served connection
connection-Served = record {
  connections = accepted 7 true 1 ∷ [];
  later_accepts = [];
  all_accepted = refl;
  messages = [];
  ending = caught_up;
  later_reads = [];
  all_read = refl;
}

hang_up-Served : Served hang_up
hang_up-Served = record {
  connections = [];
  later_accepts = [];
  all_accepted = refl;
  messages = [];
  ending = caught_up;
  later_reads = [];
  all_read = refl;
}

event_loop_keeps_registry_example :
    (r1 : Registry) × (run_event_loop (ready events ∷ stopped ∷ []) two ≡ some r1) × IsRegistry r1
unfolding program
event_loop_keeps_registry_example =
    event_loop_keeps_registry (ready events ∷ stopped ∷ []) two ((refl, tt), (tt, tt))
      ((connection-Served, (hang_up-Served, tt)), tt) (refl, (refl, (refl, tt)))

abbrev writes : ℕ → List WriteResult
writes fd = WriteResult.again ∷ wrote 10 ∷ wrote 200 ∷ []

broadcast-frames_example :
    (broadcast_shrink hundredths 25 writes two
      ≡ some (frames (shrink_command hundredths 25) two.clients))
    × (broadcast_grow hundredths 25 writes two
        ≡ some (frames (grow_command hundredths 25) two.clients))
unfolding program
broadcast-frames_example = broadcast-frames hundredths 25 writes two (tt, (tt, tt)) (tt, (tt, tt))
