-- ===== src/Daemon/Output.antt =====
-- The callback that the constructor of `GovernorDaemon` gives to its poller
-- (src/governor/governor_daemon.cpp).
use memory_aware_governor.Base.{ℕ, Option, none, some, List, [], ◌∷◌, ◌++◌, ◌>>=◌}
use memory_aware_governor.Base.Double.{Doubles}
use memory_aware_governor.Text.{Text}
use memory_aware_governor.Psi.{PsiData}
use memory_aware_governor.Registry.Send.{WriteResult}
use memory_aware_governor.Daemon.{Daemon, LogLine, Update, on_psi_update}

-- The daemon, with what it has sent and logged so far.
pub record Output (D : Type 0) : Type 0 where
  pub daemon : Daemon D
  pub sent : List (ℕ × Text)
  pub logged : List (LogLine D)

module _ (d : Doubles) where
  open d use {Double}

  abbrev pub add_line : List (LogLine Double) → Option (LogLine Double) → List (LogLine Double)
  add_line ls none = ls
  add_line ls (some l) = ls ++ l ∷ []

  abbrev pub add_update : Update Double → Output Double → Output Double
  add_update u out = record {
    daemon = u.daemon;
    sent = out.sent ++ u.sent;
    logged = add_line out.logged u.log;
  }

  unfoldable pub poll_callback :
      (ℕ → List WriteResult) → PsiData Double → Output Double → Option (Output Double)
  poll_callback writes data_ out = do
    u ← on_psi_update d writes data_ out.daemon
    some (add_update u out)
