-- ===== src/Daemon/Orders.antt =====
-- Which commands a poll of the pressure sends (src/governor/governor_daemon.cpp).
use memory_aware_governor.Base.{ℕ, ◌≡◌, refl, some, List, [], >>=-some}
use memory_aware_governor.Base.Double.{Doubles}
use memory_aware_governor.Text.{Text}
use memory_aware_governor.Psi.{PsiData}
use memory_aware_governor.Policy.{ActionType, nothing, shrink, grow, PolicyAction, Engine, evaluate}
use memory_aware_governor.Registry.{Registry, Clients}
use memory_aware_governor.Registry.Send.{WriteResult, shrink_command, grow_command}
use memory_aware_governor.Registry.Broadcast.{Reachable, frames, broadcast-frames}
use memory_aware_governor.Daemon.{
  Daemon, Update, dispatch_action, dispatch_some, log_transition, on_psi_update,
}

module _ (d : Doubles) where
  open d use {Double}

  -- The frames that an action calls for.
  abbrev pub orders : ActionType → Double → Clients → List (ℕ × Text)
  orders nothing fraction cs = []
  orders shrink fraction cs = frames (shrink_command d fraction) cs
  orders grow fraction cs = frames (grow_command d fraction) cs

  -- Whatever the fraction, every client can be sent its command.
  abbrev pub AllReachable : (ℕ → List WriteResult) → Clients → Type 0
  AllReachable writes cs =
      (fraction : Double)
      → Reachable (shrink_command d fraction) writes cs
        × Reachable (grow_command d fraction) writes cs

  dispatch_some-orders :
      (t : ActionType) (a : PolicyAction Double) (writes : ℕ → List WriteResult) (r : Registry)
      → AllReachable writes r.clients
      → dispatch_some d (record a { type = t }) writes r ≡ some (orders t a.fraction r.clients)
  unfolding dispatch_action
  dispatch_some-orders nothing a writes r h = refl
  dispatch_some-orders shrink a writes r h =
      (broadcast-frames d a.fraction writes r (h a.fraction).0 (h a.fraction).1).0
  dispatch_some-orders grow a writes r h =
      (broadcast-frames d a.fraction writes r (h a.fraction).0 (h a.fraction).1).1

  -- The outcome of a poll for which the policy returns `r`, if every client is sent its command.
  abbrev pub update_by :
      PsiData Double → Daemon Double → Engine Double × PolicyAction Double → Update Double
  update_by data_ daemon r = record {
    daemon = record daemon { engine = r.0 };
    sent = orders r.1.type r.1.fraction daemon.registry.clients;
    log = log_transition d daemon.engine.current_tier r.0.current_tier data_ daemon.registry;
  }

  pub on_psi_update-update :
      (writes : ℕ → List WriteResult) (data_ : PsiData Double) (daemon : Daemon Double)
      (r : Engine Double × PolicyAction Double)
      → evaluate d daemon.engine data_ ≡ some r
      → AllReachable writes daemon.registry.clients
      → on_psi_update d writes data_ daemon ≡ some (update_by data_ daemon r)
  unfolding on_psi_update
  on_psi_update-update writes data_ daemon r runs reach = >>=-some r _ _ _ runs (
      >>=-some (orders r.1.type r.1.fraction daemon.registry.clients) _ _ _
        (dispatch_some-orders r.1.type r.1 writes daemon.registry reach) refl)
