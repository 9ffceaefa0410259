-- ===== src/Daemon/Files.antt =====
-- The daemon as the files of the pressure drive it: `PsiPoller`, `PolicyEngine` and the broadcasts of
-- `ClientRegistry` together (src/governor/psi_poller.cpp, src/governor/governor_daemon.cpp).
use memory_aware_governor.Base.{
  ℕ, ◌≡◌, refl, sym, ◌∙◌, ap, Option, none, some, List, [], ◌∷◌, ◌++◌, >>=-some, ++-assoc,
  append_nil,
}
use memory_aware_governor.Base.Double.{Doubles}
use memory_aware_governor.Text.{Text, Result}
use memory_aware_governor.Psi.{PsiData}
use memory_aware_governor.Psi.Poller.{
  Outcome, returns, Round, stopped, polled, parsed, then_loop, poll_round, poll_loop,
}
use memory_aware_governor.Psi.Rendered.{Fields, file_text, file_data, parse_psi_file-file_text}
use memory_aware_governor.Policy.{PolicyAction, Engine}
use memory_aware_governor.Policy.Polls.{run_polls}
use memory_aware_governor.Policy.Transition.{IsEngine}
use memory_aware_governor.Policy.Invariant.{evaluate-Change}
use memory_aware_governor.Registry.{Clients}
use memory_aware_governor.Registry.Send.{WriteResult}
use memory_aware_governor.Daemon.{Update}
use memory_aware_governor.Daemon.Orders.{orders, AllReachable, update_by, on_psi_update-update}
use memory_aware_governor.Daemon.Output.{Output, add_update, poll_callback}

module _ (d : Doubles) (stod : Text → Result (d.Double)) where
  open d use {Double}

  -- What a poll finds: the file with its two lines, the empty file, or none.
  pub data File : Type 0 where
    shown : Fields d stod → Fields d stod → File
    blank missing : File

  abbrev pub file_content : File → Option Text
  file_content (shown f g) = some (file_text d stod f g)
  file_content blank = some []
  file_content missing = none

  -- A poll with the results of the writes of its broadcast.
  abbrev pub Poll : Type 0
  Poll = File × (ℕ → List WriteResult)

  -- The rounds for the polls, and then the end of the loop.
  abbrev pub poll_rounds : List Poll → List (Round (ℕ → List WriteResult))
  poll_rounds [] = stopped ∷ []
  poll_rounds ((file, writes) ∷ ps) = polled (file_content file) writes ∷ poll_rounds ps

  -- The numbers that the files show.
  abbrev pub snapshots : List Poll → List (PsiData Double)
  snapshots [] = []
  snapshots ((shown f g, writes) ∷ ps) = file_data d stod f g ∷ snapshots ps
  snapshots ((blank, writes) ∷ ps) = snapshots ps
  snapshots ((missing, writes) ∷ ps) = snapshots ps

  abbrev pub last_of : PsiData Double → List (PsiData Double) → PsiData Double
  last_of latest [] = latest
  last_of latest (p ∷ ps) = last_of p ps

  -- In every poll every client can be sent its command.
  abbrev pub PollsReach : List Poll → Clients → Type 0
  PollsReach [] cs = Unit {0}
  PollsReach ((file, writes) ∷ ps) cs = AllReachable d writes cs × PollsReach ps cs

  -- The frames that some actions call for.
  abbrev pub all_orders : List (PolicyAction Double) → Clients → List (ℕ × Text)
  all_orders [] cs = []
  all_orders (a ∷ as_) cs = orders d a.type a.fraction cs ++ all_orders as_ cs

  abbrev pub Loop :
      List Poll → PsiData Double × Output Double → Outcome (PsiData Double × Output Double)
  Loop ps state = poll_loop d stod (some (poll_callback d)) (poll_rounds ps) state

  -- The loop ends like the policy on the snapshots, with all that its actions call for.
  abbrev pub Follows : List Poll → PsiData Double → Output Double → Type 0
  Follows ps latest out =
      (e1 : Engine Double) × (actions : List (PolicyAction Double)) × (out1 : Output Double)
      × (run_polls d out.daemon.engine (snapshots ps) ≡ some (e1, actions))
      × (Loop ps (latest, out) ≡ returns (last_of latest (snapshots ps), out1))
      × IsEngine d e1
      × (out1.daemon ≡ record { engine = e1; registry = out.daemon.registry })
      × (out1.sent ≡ out.sent ++ all_orders actions out.daemon.registry.clients)

  pub shown_round :
      (f g : Fields d stod) (writes : ℕ → List WriteResult) (latest : PsiData Double)
      (out out1 : Output Double)
      → poll_callback d writes (file_data d stod f g) out ≡ some out1
      → poll_round d stod (some (poll_callback d)) (file_text d stod f g) writes (latest, out)
        ≡ returns (file_data d stod f g, out1)
  unfolding poll_round
  shown_round f g writes latest out out1 h =
      ap (parsed d stod (some (poll_callback d)) writes out) (parse_psi_file-file_text d stod f g)
      ∙ ap
          (λ (o : Option (Output Double)).
            elim o as (λ _. Outcome (PsiData Double × Output Double)) [
              | none ↦ Outcome.stuck
              | some s1 ↦ returns (file_data d stod f g, s1)
            ])
          h

  -- For a daemon whose engine meets the invariant, whose table does not change and whose clients
  -- can be sent their commands in every poll whatever the fraction, the polling loop over any
  -- pressure files, each with its two lines, empty or missing, returns when it is stopped: the
  -- policy run on the numbers of the shown files, in order, has a result, the daemon ends with
  -- its engine, which meets the invariant, and the same table, what has been sent is the frames
  -- of the actions of that run in order, and the latest snapshot is the last one shown.
  pub poll_loop-Follows :
      (ps : List Poll) (latest : PsiData Double) (out : Output Double)
      → IsEngine d out.daemon.engine
      → PollsReach ps out.daemon.registry.clients
      → Follows ps latest out
  unfolding poll_loop poll_round run_polls poll_callback
  poll_loop-Follows [] latest out v h =
      (out.daemon.engine, [], out, refl, refl, v, refl, sym (append_nil out.sent))
  poll_loop-Follows ((blank, writes) ∷ ps) latest out v h = poll_loop-Follows ps latest out v h.1
  poll_loop-Follows ((missing, writes) ∷ ps) latest out v h = poll_loop-Follows ps latest out v h.1
  poll_loop-Follows ((shown f g, writes) ∷ ps) latest out v h =
      let p : PsiData Double = file_data d stod f g in
      let clients : Clients = out.daemon.registry.clients in
      let (c, r, at_c, runs, v1, change) = evaluate-Change d out.daemon.engine p v in
      let u : Update Double = update_by d p out.daemon r in
      let (e1, actions, out1, polls, loops, v2, daemon1, sent1) =
        poll_loop-Follows ps p (add_update d u out) v1 h.1 in
      (
        e1,
        r.1 ∷ actions,
        out1,
        >>=-some r _ _ _ runs (>>=-some (e1, actions) _ _ _ polls refl),
        ap (then_loop (Loop ps)) (
              shown_round f g writes latest out (add_update d u out)
                (>>=-some u _ _ _ (on_psi_update-update d writes p out.daemon r runs h.0) refl))
            ∙ loops,
        v2,
        daemon1,
        sent1
            ∙ ++-assoc out.sent (orders d r.1.type r.1.fraction clients)
                (all_orders actions clients),
      )
