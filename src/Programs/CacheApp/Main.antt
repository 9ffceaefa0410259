-- ===== src/Programs/CacheApp/Main.antt =====
-- `main` of src/cache_app/main.cpp from the start of its cache to the summary.
use memory_aware_governor.Base.{ℕ, Bool, false, none, some, List}
use memory_aware_governor.Base.Double.{Doubles}
use memory_aware_governor.Base.Int.{ℤ}
use memory_aware_governor.Client.{Client, ConnectCalls, WriteResult}
use memory_aware_governor.Governed.{Governed, new_governed, start}
use memory_aware_governor.Lru.Sessions.{After}
use memory_aware_governor.Programs.CacheApp.{Config}
use memory_aware_governor.Programs.CacheApp.Workload.{new_driver}
use memory_aware_governor.Programs.CacheApp.Session.{Event}
use memory_aware_governor.Programs.CacheApp.Threads.{Allocating}
use memory_aware_governor.Text.{Text}

-- Whether the calls of `connect` reach the daemon.
abbrev pub daemon_reached : ConnectCalls → Bool
daemon_reached calls = elim calls.socket [ none ↦ false | some fd ↦ calls.connects ]

-- Each put of the run is given an address that is not null and not in use.
abbrev pub Unused :
    (d : Doubles)
    → Config (d.Double)
    → Discrete Text
    → Text
    → ℤ
    → ConnectCalls
    → List WriteResult
    → List WriteResult
    → ℕ
    → List (Event (d.Double))
    → Type 0
Unused d config dec value_template pid calls writes reports start_time es =
    After (start config.entry_size pid calls writes (new_governed config.capacity))
      (λ (g : Governed Text Text).
        Allocating d config dec value_template pid reports es (new_driver d g start_time))
