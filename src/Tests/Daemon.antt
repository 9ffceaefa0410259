-- ===== src/Tests/Daemon.antt =====
-- `GovernorDaemon` of src/governor/governor_daemon.cpp with one client.
use mathlib.Core.Path.{subst}
use memory_aware_governor.Base.{
  refl, ℕ, ◌+◌, ◌-◌, ◌*◌, ◌/◌, ◌≡◌, arith, length, some, List, [], ◌∷◌,
}
use memory_aware_governor.Text.{stoull, stoi, show_from, show, show_int}
use memory_aware_governor.Protocol.{
  MessageType, register, report_size, shrink, grow, ack, heartbeat, unknown, empty_message,
  serialize, frame,
}
use memory_aware_governor.Psi.{PsiData}
use memory_aware_governor.Policy.{
  PolicyAction, Engine, new_engine, evaluate, promotion_check, promote_condition, demotion_check,
  promote,
}
use memory_aware_governor.Policy.Invariant.{new_engine-IsEngine}
use memory_aware_governor.Policy.Polls.{run_polls}
use memory_aware_governor.Registry.{new_registry, new_info}
use memory_aware_governor.Daemon.{Daemon}
use memory_aware_governor.Daemon.Files.{
  shown, missing, Poll, snapshots, all_orders, Follows, poll_loop-Follows,
}
use memory_aware_governor.Daemon.Output.{Output}
use memory_aware_governor.Daemon.Orders.{AllReachable}
use memory_aware_governor.Registry.Broadcast.{Takes}
use memory_aware_governor.Registry.Send.{WriteResult, wrote}
use memory_aware_governor.Tests.{hundredths}
use memory_aware_governor.Tests.Psi.{stod, some_fields, full_fields}

program : Unit {0}
unfolding stoull stoi show_from show show_int serialize frame
program = tt

abbrev pub writes : ℕ → List WriteResult
writes fd = wrote 40 ∷ wrote 200 ∷ []

abbrev daemon : Daemon ℕ
daemon = record {
  engine = new_engine hundredths [];
  registry = record new_registry { clients = (5, new_info 5 0) ∷ []; watched = 5 ∷ [] };
}

zero_times : (b : ℕ) → 0 ≡ 0 * b / 100 / 100
zero_times b = omega arith

-- A command of any fraction for a client of size 0 has the target 0.
pub reachable : AllReachable hundredths writes daemon.registry.clients
unfolding program
reachable fraction = ((sized shrink (100 - fraction), tt), (sized grow (100 + fraction), tt))
  where
    sized :
        (t : MessageType) (b : ℕ)
        → Takes
            (length (frame (record empty_message { type = t; target_bytes = 0 * b / 100 / 100 })))
            (writes 5)
    sized t b =
        subst
          (λ (n : ℕ).
            Takes (length (frame (record empty_message { type = t; target_bytes = n }))) (writes 5))
          (zero_times b) (by_type t)
      where
        by_type :
            (t : MessageType)
            → Takes
                (length (frame (record empty_message { type = t; target_bytes = 0 })))
                (writes 5)
        by_type register = tt
        by_type report_size = tt
        by_type shrink = tt
        by_type grow = tt
        by_type ack = tt
        by_type heartbeat = tt
        by_type unknown = tt

abbrev pressed : PsiData ℕ
pressed = record {
  some_avg10 = 600;
  some_avg60 = 0;
  some_avg300 = 0;
  some_total = 0;
  full_avg10 = 0;
  full_avg60 = 0;
  full_avg300 = 0;
  full_total = 0;
}

-- Three polls over the first threshold, one of which finds no file behind the first of them.
abbrev shown_poll : Poll hundredths stod
shown_poll = (shown some_fields full_fields, writes)

abbrev polls : List (Poll hundredths stod)
polls = shown_poll ∷ (missing, writes) ∷ shown_poll ∷ shown_poll ∷ []

abbrev first_output : Output ℕ
first_output = record { daemon = daemon; sent = []; logged = [] }

-- The third poll that shows 5.12 percent is the first one with an order.
third_order :
    (e : Engine ℕ) × (actions : List (PolicyAction ℕ)) × (run_polls hundredths
        (new_engine hundredths [])
        (snapshots hundredths stod polls)
      ≡ some (e, actions))
    × (all_orders hundredths stod actions daemon.registry.clients
        ≡ (5, frame (record empty_message { type = shrink })) ∷ [])
unfolding run_polls evaluate promotion_check new_engine promote_condition demotion_check promote
third_order = (_, _, refl, refl)

poll_loop-Follows_example : Follows hundredths stod polls pressed first_output
poll_loop-Follows_example =
    poll_loop-Follows hundredths stod polls pressed first_output (new_engine-IsEngine hundredths [])
      (reachable, (reachable, (reachable, (reachable, tt))))
