-- ===== src/Tests/Exit.antt =====
-- `main` of src/governor/main.cpp with two connections, one of which cannot be watched.
use memory_aware_governor.Base.{none, ℕ, ◌*◌, ◌≡◌, refl, true, false, some, List, [], ◌∷◌, count}
use memory_aware_governor.Daemon.Files.{missing, shown}
use memory_aware_governor.Daemon.Life.{
  Service, Move, poll, interruption, failure, events, exited, terminated, waiting, registry_of,
  set_registry, new_service, move, moves, run_main,
}
use memory_aware_governor.Daemon.Life
use memory_aware_governor.Daemon.Exit.{run_main-closes, run_main-fails}
use memory_aware_governor.Daemon.Stopping.{running, flag_down}
use memory_aware_governor.Daemon.Orders.{AllReachable}
use memory_aware_governor.Daemon.Output.{poll_callback}
use memory_aware_governor.Daemon.Turns.{AllHarmless, Behind}
use memory_aware_governor.Daemon.{Daemon, on_psi_update}
use memory_aware_governor.Daemon.Interleaving.{
  Act, event, polled, handled, done, started, Undisturbed, threads_apart,
}
use memory_aware_governor.Policy.{
  new_engine, evaluate, promotion_check, promote_condition, demotion_check, promote,
}
use memory_aware_governor.Psi.{PsiData}
use memory_aware_governor.Psi.Parse.{parse_psi_file}
use memory_aware_governor.Psi.Rendered.{file_text}
use memory_aware_governor.Protocol.{serialize, frame}
use memory_aware_governor.Tests.Psi.{stod, some_fields, full_fields}
use memory_aware_governor.Text.{
  throw, codes, invalid_argument, show, show_from, show_int, stoull, stoi,
}
use memory_aware_governor.Tests.Daemon.{writes, reachable}
use memory_aware_governor.Daemon.Interleaving
use memory_aware_governor.Tests.{hundredths}
use memory_aware_governor.Psi.Poller.{new_poller, poll_round}
use memory_aware_governor.Psi.Poller
use memory_aware_governor.Registry.{
  accepted, would_block, again, new_registry, handle_new_connection, handle_client_message,
  remove_client, ClientInfo, new_info,
}
use memory_aware_governor.Registry.Ending.{Served}
use memory_aware_governor.Registry.Reading.{caught_up}
use memory_aware_governor.Registry.Server.{StartCalls, no_bind, Event, handle_event, run_event_loop}
use memory_aware_governor.Registry.Server

program : Unit {0}
unfolding Server.start Server.stop Poller.start Life.start Life.stop run_main move poll_round
    poll_callback parse_psi_file serialize frame show show_from show_int stoull stoi run_event_loop
    on_psi_update evaluate promotion_check new_engine promote_condition demotion_check promote
    handle_event handle_new_connection handle_client_message remove_client
program = tt

abbrev calls : StartCalls
calls = record {
  socket = some 3;
  bind = true;
  listen = true;
  epoll_create = some 4;
  epoll_ctl = true;
}

abbrev connections : Event
connections = record {
  fd = 3;
  epoll_in = true;
  epoll_err = false;
  epoll_hup = false;
  accepts = accepted 7 true 1 ∷ accepted 8 false 2 ∷ accepted 9 true 3 ∷ would_block ∷ [];
  reads = again ∷ [];
}

abbrev hang_up : Event
hang_up = record {
  fd = 7;
  epoll_in = true;
  epoll_err = false;
  epoll_hup = true;
  accepts = would_block ∷ [];
  reads = again ∷ [];
}

connections-Served : Served connections
connections-Served = record {
  connections = accepted 7 true 1 ∷ accepted 8 false 2 ∷ accepted 9 true 3 ∷ [];
  later_accepts = [];
  all_accepted = refl;
  messages = [];
  ending = caught_up;
  later_reads = [];
  all_read = refl;
}

hang_up-Served : Served hang_up
hang_up-Served = record {
  connections = [];
  later_accepts = [];
  all_accepted = refl;
  messages = [];
  ending = caught_up;
  later_reads = [];
  all_read = refl;
}

abbrev entry : ℕ → ℕ → ℕ × ClientInfo
entry fd now = (fd, new_info fd now)

-- A connection whose client has said nothing, and a poll that shows 5.12 percent.
abbrev before : List Move
before =
    poll none writes
    ∷ interruption
    ∷ events (connections ∷ hang_up ∷ [])
    ∷ poll (some (file_text hundredths stod some_fields full_fields)) writes
    ∷ []

abbrev joining : List Move
joining = interruption ∷ poll none writes ∷ []

abbrev serving : List Move
serving = poll none writes ∷ events (hang_up ∷ []) ∷ []

-- Its frame is that of any client that has said nothing.
reachable_nine : AllReachable hundredths writes (entry 9 3 ∷ [])
reachable_nine = reachable

harmless :
    AllHarmless hundredths stod before
      (running hundredths stod [] (Server.start calls new_registry).0)
unfolding program
harmless = (
  (missing, refl, λ fraction. (tt, tt)),
  (
    tt,
    (
      ((connections-Served, (hang_up-Served, tt)), ((refl, (refl, tt)), (tt, tt))),
      ((shown some_fields full_fields, refl, reachable_nine), tt),
    ),
  ),
)

harmless_joining :
    Behind hundredths stod
      (moves hundredths stod before
        (running hundredths stod [] (Server.start calls new_registry).0))
      (λ s. AllHarmless hundredths stod joining (flag_down hundredths stod s))
unfolding program
harmless_joining = (tt, ((missing, refl, reachable_nine), tt))

run_main-closes_example :
    (s : Service ℕ) × (run_main hundredths stod [] calls before joining serving ≡ exited s 0)
    × (s.poller ≡ new_poller)
    × (s.serving ≡ false)
    × ((registry_of s).running ≡ false)
    × ((registry_of s).clients ≡ [])
    × ((p : ℕ) → count p (registry_of s).closed ≡ count p (registry_of s).opened)
run_main-closes_example =
    run_main-closes hundredths stod [] calls 3 4 before joining serving refl refl refl refl refl
      harmless harmless_joining tt tt

-- A poller that gets no turn is waited for.
waits : run_main hundredths stod [] calls before (interruption ∷ []) serving ≡ waiting
unfolding program
waits = refl

-- An average that is no number, in the thread of the poller.
no_number :
    run_main hundredths
      (λ t. throw invalid_argument)
      []
      calls
      (poll (some (codes "some avg10=x")) writes ∷ [])
      joining
      serving
    ≡ terminated
unfolding program
no_number = refl

-- A socket that cannot be bound: the exit code 1, and a socket that is closed twice.
abbrev refused : StartCalls
refused = record calls { bind = false }

failed_main :
    run_main hundredths stod [] refused before joining serving
    ≡ exited
        (set_registry
          (record new_registry { opened = 3 ∷ []; closed = 3 ∷ 3 ∷ [] })
          (new_service hundredths stod []))
        1
unfolding program
failed_main = refl

run_main-fails_example :
    (s : Service ℕ) × (run_main hundredths stod [] refused before joining serving ≡ exited s 1)
    × (s.poller ≡ new_poller)
    × ((registry_of s).running ≡ false)
    × ((p : ℕ) → count p (registry_of s).closed ≡ count p (registry_of s).opened * 2)
    × (Server.start calls (Server.start refused new_registry).0
        ≡ ((Server.start refused new_registry).0, none))
unfolding program
run_main-fails_example =
    run_main-fails hundredths stod [] refused calls before joining serving no_bind refl

abbrev pressed : PsiData ℕ
pressed = record {
  some_avg10 = 600;
  some_avg60 = 0;
  some_avg300 = 0;
  some_total = 0;
  full_avg10 = 0;
  full_avg60 = 0;
  full_avg300 = 0;
  full_total = 0;
}

-- A poll between the two events.
abbrev acts : List (Act hundredths)
acts = event connections ∷ Interleaving.poll pressed ∷ event hang_up ∷ []

abbrev at_end : Daemon ℕ
at_end = record {
  engine = record (new_engine hundredths []) { consecutive_promote_polls = 1 };
  registry = record new_registry {
    listen_fd = some 3;
    epoll_fd = some 4;
    running = true;
    clients = entry 9 3 ∷ [];
    watched = 9 ∷ [];
    opened = 9 ∷ 8 ∷ 7 ∷ 4 ∷ 3 ∷ [];
    closed = 7 ∷ 8 ∷ [];
  };
}

threads_apart_example : Undisturbed hundredths acts (started hundredths [] calls) at_end
unfolding program
threads_apart_example = threads_apart hundredths [] calls 3 4 acts at_end refl refl refl refl refl (
    handled connections _ (refl, (refl, tt)) refl
      (polled (λ fd. []) pressed _ refl (handled hang_up _ tt refl done)))
