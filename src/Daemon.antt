-- ===== src/Daemon.antt =====
-- The class `GovernorDaemon` of src/governor/governor_daemon.cpp: each poll of the pressure is given to the
-- policy, and its action to the clients.
--
-- `none` is a fault of the policy, or a broadcast that does not come to its end with the results of the
-- writes that are given.
pub mod Orders
pub mod Output
pub mod Files
pub mod Life
pub mod Leaving
pub mod Turns
pub mod Stopping
pub mod Exit
pub mod Interleaving
use memory_aware_governor.Base.{
  ℕ, Bool, true, false, Option, none, some, List, [], ◌==◌, if◌then◌else◌, ◌>>=◌,
}
use memory_aware_governor.Base.Double.{Doubles}
use memory_aware_governor.Text.{Text}
use memory_aware_governor.Psi.{PsiData}
use memory_aware_governor.Policy.{
  PressureTier, to_int, TierConfig, ActionType, nothing, shrink, grow, PolicyAction, Engine,
  new_engine, evaluate, get_tier_name,
}
use memory_aware_governor.Registry.{Registry, new_registry, get_client_count, get_total_cache_size}
use memory_aware_governor.Registry.Send.{WriteResult, broadcast_shrink, broadcast_grow}
use Prim.Native.String.{String}

pub record Daemon (D : Type 0) : Type 0 where
  pub engine : Engine D
  pub registry : Registry

-- What the log line of a transition says besides the time.
pub record LogLine (D : Type 0) : Type 0 where
  pub old_name : String
  pub new_name : String
  pub data_ : PsiData D
  pub clients : ℕ
  pub total_cache : ℕ

-- The outcome of a poll: what each client was sent, and the log line if the tier has changed.
pub record Update (D : Type 0) : Type 0 where
  pub daemon : Daemon D
  pub sent : List (ℕ × Text)
  pub log : Option (LogLine D)

module _ (d : Doubles) where
  open d use {Double}

  abbrev pub new_daemon : List (TierConfig Double) → Daemon Double
  new_daemon tier_configs = record { engine = new_engine d tier_configs; registry = new_registry }

  unfoldable pub dispatch_action :
      PolicyAction Double → (ℕ → List WriteResult) → Registry → Option (List (ℕ × Text))
  dispatch_action action writes r = elim action.type [
    | shrink ↦ broadcast_shrink d action.fraction writes r
    | grow ↦ broadcast_grow d action.fraction writes r
    | nothing ↦ some []
  ]

  abbrev pub dispatch_some :
      PolicyAction Double → (ℕ → List WriteResult) → Registry → Option (List (ℕ × Text))
  dispatch_some action writes r = elim action.type [
    | nothing ↦ some []
    | _ ↦ dispatch_action action writes r
  ]

  abbrev pub log_transition :
      PressureTier → PressureTier → PsiData Double → Registry → Option (LogLine Double)
  log_transition old_tier new_tier data_ r =
      if to_int old_tier == to_int new_tier
      then none
      else some (record {
        old_name = get_tier_name old_tier;
        new_name = get_tier_name new_tier;
        data_ = data_;
        clients = get_client_count r;
        total_cache = get_total_cache_size r;
      })

  unfoldable pub on_psi_update :
      (ℕ → List WriteResult) → PsiData Double → Daemon Double → Option (Update Double)
  on_psi_update writes data_ daemon = do
    (engine1, action) ← evaluate d daemon.engine data_
    sent ← dispatch_some action writes daemon.registry
    some (record {
      daemon = record daemon { engine = engine1 };
      sent = sent;
      log = log_transition daemon.engine.current_tier engine1.current_tier data_ daemon.registry;
    })
