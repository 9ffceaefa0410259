-- ===== src/Tests/Workload.antt =====
-- Two operations of the workload of src/cache_app/main.cpp: a write and a read of the first key.
use mathlib.Core.List.{tail-eq_of_cons-eq, head-eq_of_cons-eq}
use mathlib.Core.Path.{ap}
use memory_aware_governor.Base.{
  ℕ, ◌+◌, ◌≡◌, refl, true, false, some, List, [], ◌∷◌, ◌++◌, map, arith,
}
use memory_aware_governor.Client.{
  ConnectCalls, wrote, connect, disconnect, register_cache, report_size, send_message,
  start_listening, stop_listening, process_message,
}
use memory_aware_governor.Client.Listener.{listener_round}
use memory_aware_governor.Base.Int.{pos}
use memory_aware_governor.Governed.{get_stats, hit_rate, handle_shrink, handle_grow}
use memory_aware_governor.Governed.Tracking.{Incoming}
use memory_aware_governor.Protocol.{
  Message, shrink, empty_message, serialize, extract_string, deserialize, frame,
}
use memory_aware_governor.Lru.{
  Cache, empty, load, set_next, set_prev, set_value, delete_node, add_to_front, unlink,
  move_to_front, destroy_from, destroy, map_erase, map_insert, evict_lru, evict_loop, evict_to,
  resize, insert_new,
}
use memory_aware_governor.Lru.Segment.{write}
use memory_aware_governor.Programs.CacheApp.{Config, default_config}
use memory_aware_governor.Programs.CacheApp.Workload.{
  Round, Turn, driver, random_string, weights, workload, run_driver,
}
use memory_aware_governor.Programs.CacheApp.Session.{Event, operation, command, event_turn}
use memory_aware_governor.Text.{Text, codes, stoull, stoi, show_from, show, show_int}
use memory_aware_governor.Tests.{hundredths}
use memory_aware_governor.Tests.System.{message_parts, whole_round}
use native.Mathlib.Decide.{ℕ_discrete}

abbrev dec_cons :
    {c b : ℕ} {s t : Text} → Dec (c ≡ b) → Dec (s ≡ t) → Dec (◌≡◌ {A = Text} (c ∷ s) (b ∷ t))
dec_cons (yes p) (yes q) = yes (ap (λ (x : ℕ × Text). x.0 ∷ x.1) (λ i. (p i, q i)))
dec_cons (yes p) (no n) = no (λ e. n (tail-eq_of_cons-eq e))
dec_cons (no n) q = no (λ e. n (head-eq_of_cons-eq e))

unfoldable dec : Discrete Text
dec [] [] = yes refl
dec [] (b ∷ t) = no (λ e. cc e)
dec (c ∷ s) [] = no (λ e. cc e)
dec (c ∷ s) (b ∷ t) = dec_cons (ℕ_discrete c b) (dec s t)

program : Unit {0}
unfolding empty load set_next set_prev set_value delete_node add_to_front unlink move_to_front
    destroy_from destroy map_erase map_insert evict_lru evict_loop evict_to resize
    memory_aware_governor.Lru.get insert_new memory_aware_governor.Lru.put write workload
    random_string weights default_config show_from show show_int dec serialize frame
    memory_aware_governor.Governed.start memory_aware_governor.Governed.stop
    memory_aware_governor.Governed.get memory_aware_governor.Governed.put connect disconnect
    stop_listening get_stats hit_rate run_driver ℕ_discrete register_cache report_size send_message
    start_listening process_message listener_round handle_shrink handle_grow extract_string
    deserialize stoull stoi
program = tt

abbrev config : Config ℕ
config = record {
  capacity = 10;
  entry_size = 3;
  zipf_skew = 99;
  key_space = 3;
  ops_per_sec = 1000;
  duration_sec = 60;
  socket_path = [];
  report_interval = 1;
}

-- The operation in a round takes a hundredth of a second.
abbrev round : ℕ → ℕ → Round ℕ
round start coin = record {
  running = true;
  at_head = start;
  op_start = start;
  drawn = 0;
  coin = coin;
  fresh = start + 1;
  now = start + 10000000;
  at_throttle = start + 10000000;
}

-- A SHRINK to nine entries comes between the two operations.
abbrev smaller : Message
smaller = record empty_message { type = shrink; target_bytes = 27 }

abbrev shrinking : Incoming
unfolding program
shrinking = record {
  message = smaller;
  round = whole_round smaller;
  in_range = (omega arith, omega arith, omega arith, omega arith);
  reads = record { parts = message_parts smaller; head = refl; body = refl; whole = refl };
}

abbrev events : List (Event ℕ)
events = operation (round 0 90) ∷ command shrinking ∷ operation (round 1000000000 10) ∷ []

abbrev stopped : Round ℕ
stopped = record (round 2000000000 0) { running = false }

template : random_string 3 (0 ∷ 10 ∷ 61 ∷ []) ≡ some (codes "0Az")
unfolding program
template = refl

halves : weights hundredths (λ x alpha. x) 100 0 3 ≡ 100 ∷ 50 ∷ 33 ∷ []
unfolding program
halves = refl

-- The daemon is there.
abbrev there : ConnectCalls
there = record { socket = some 5; connects = true }

abbrev turns : List (Turn ℕ)
turns = map event_turn events ++ driver stopped ∷ []

-- The read hits: two operations, a rate of a hundred percent, one entry, and the new capacity.
printed :
    run_driver hundredths config dec
      (pos 10)
      there
      (wrote 300 ∷ [])
      (wrote 300 ∷ [])
      (0 ∷ 10 ∷ 61 ∷ [])
      0
      turns
    ≡ some (record { total = 2; rate = 10000; size = 1; capacity = 9 })
unfolding program
printed = refl

-- Without a daemon nothing is read, and the capacity stays.
abbrev alone : ConnectCalls
alone = record { socket = some 5; connects = false }

alone_printed :
    run_driver hundredths config dec (pos 10) alone [] [] (0 ∷ 10 ∷ 61 ∷ []) 0 turns
    ≡ some (record { total = 2; rate = 10000; size = 1; capacity = 10 })
unfolding program
alone_printed = refl
