-- ===== src/Daemon/Leaving.antt =====
-- A thread of the daemon whose flag is down leaves its loop at its next turn
-- (src/governor/psi_poller.cpp, src/governor/client_registry.cpp).
use memory_aware_governor.Base.{
  ◌≡◌, refl, ◌∙◌, ap, Bool, true, false, List, [], ◌∷◌, if◌then◌else◌, if_false,
}
use memory_aware_governor.Base.Double.{Doubles}
use memory_aware_governor.Text.{Text, Result}
use memory_aware_governor.Psi.Poller.{Poller, Outcome, returns, then_loop}
use memory_aware_governor.Daemon.Life.{
  Service, Move, poll, interruption, failure, events, registry_of, leave_loop, event_turn, move,
  moves,
}

-- The poller behind a turn.
abbrev pub poller_behind : Move → Poller → Poller
poller_behind (poll content writes) p =
    if p.in_loop then if p.running then p else record p { in_loop = false } else p
poller_behind _ p = p

abbrev pub poller_at_end : List Move → Poller → Poller
poller_at_end [] p = p
poller_at_end (m ∷ ms) p = poller_at_end ms (poller_behind m p)

-- There is a turn of the poller, or one of the event loop, among the moves.
abbrev pub HasPoll : List Move → Type 0
HasPoll [] = ⊥
HasPoll (poll content writes ∷ ms) = Unit {0}
HasPoll (_ ∷ ms) = HasPoll ms

abbrev pub HasWait : List Move → Type 0
HasWait [] = ⊥
HasWait (poll content writes ∷ ms) = HasWait ms
HasWait (_ ∷ ms) = Unit {0}

abbrev pub polling : Poller
polling = record { running = true; joinable = true; in_loop = true }

abbrev pub stopping : Poller
stopping = record { running = false; joinable = true; in_loop = true }

pub poller_at_end-polling : (ms : List Move) → poller_at_end ms polling ≡ polling
poller_at_end-polling [] = refl
poller_at_end-polling (poll content writes ∷ ms) = poller_at_end-polling ms
poller_at_end-polling (interruption ∷ ms) = poller_at_end-polling ms
poller_at_end-polling (failure ∷ ms) = poller_at_end-polling ms
poller_at_end-polling (events es ∷ ms) = poller_at_end-polling ms

left :
    (ms : List Move)
    → poller_at_end ms (record stopping { in_loop = false }) ≡ record stopping { in_loop = false }
left [] = refl
left (poll content writes ∷ ms) = left ms
left (interruption ∷ ms) = left ms
left (failure ∷ ms) = left ms
left (events es ∷ ms) = left ms

-- A poller whose flag is down leaves its loop at its next turn.
pub poller_at_end-stopping :
    (ms : List Move) → HasPoll ms → poller_at_end ms stopping ≡ record stopping { in_loop = false }
poller_at_end-stopping [] h = elim h [ ]
poller_at_end-stopping (poll content writes ∷ ms) h = left ms
poller_at_end-stopping (interruption ∷ ms) h = poller_at_end-stopping ms h
poller_at_end-stopping (failure ∷ ms) h = poller_at_end-stopping ms h
poller_at_end-stopping (events es ∷ ms) h = poller_at_end-stopping ms h

module _ (d : Doubles) (stod : Text → Result (d.Double)) where
  open d use {Double}

  -- The flags of both loops are down, and the poller has left its own.
  abbrev leaving : Bool → Service Double → Service Double
  leaving serving s = record s { serving = serving }

  abbrev serving_behind : List Move → Bool → Bool
  serving_behind [] b = b
  serving_behind (poll content writes ∷ ms) b = serving_behind ms b
  serving_behind (_ ∷ ms) b = serving_behind ms false

  serving_behind-false : (ms : List Move) → serving_behind ms false ≡ false
  serving_behind-false [] = refl
  serving_behind-false (poll content writes ∷ ms) = serving_behind-false ms
  serving_behind-false (interruption ∷ ms) = serving_behind-false ms
  serving_behind-false (failure ∷ ms) = serving_behind-false ms
  serving_behind-false (events es ∷ ms) = serving_behind-false ms

  event_leaves :
      (waited : Outcome (Service Double)) (b : Bool) (s : Service Double)
      → (registry_of s).running ≡ false
      → event_turn waited (leaving b s) ≡ returns (leaving false s)
  event_leaves waited true s down = if_false _ _ _ _ down refl
  event_leaves waited false s down = refl

  quiet :
      (ms : List Move) (b : Bool) (s : Service Double)
      → s.poller.in_loop ≡ false
      → (registry_of s).running ≡ false
      → moves d stod ms (leaving b s) ≡ returns (leaving (serving_behind ms b) s)
  unfolding move
  quiet [] b s gone down = refl
  quiet (poll content writes ∷ ms) b s gone down =
      ap (then_loop (moves d stod ms)) (if_false _ _ _ _ gone refl) ∙ quiet ms b s gone down
  quiet (interruption ∷ ms) b s gone down =
      ap (then_loop (moves d stod ms)) (event_leaves _ b s down) ∙ quiet ms false s gone down
  quiet (failure ∷ ms) b s gone down =
      ap (then_loop (moves d stod ms)) (event_leaves _ b s down) ∙ quiet ms false s gone down
  quiet (events es ∷ ms) b s gone down =
      ap (then_loop (moves d stod ms)) (event_leaves _ b s down) ∙ quiet ms false s gone down

  waited_for : (ms : List Move) (b : Bool) → HasWait ms → serving_behind ms b ≡ false
  waited_for [] b h = elim h [ ]
  waited_for (poll content writes ∷ ms) b h = waited_for ms b h
  waited_for (interruption ∷ ms) b h = serving_behind-false ms
  waited_for (failure ∷ ms) b h = serving_behind-false ms
  waited_for (events es ∷ ms) b h = serving_behind-false ms

  -- An event loop whose flag is down is left at its next turn, and nothing else changes.
  pub moves-HasWait :
      (ms : List Move) (s : Service Double)
      → HasWait ms
      → s.poller.in_loop ≡ false
      → (registry_of s).running ≡ false
      → moves d stod ms s ≡ returns (leave_loop s)
  moves-HasWait ms s h gone down =
      quiet ms s.serving s gone down
      ∙ ap (λ (b : Bool). returns (leaving b s)) (waited_for ms s.serving h)
