-- ===== src/Registry/Restart.antt =====
-- A start that fails (`start` and `stop` of src/governor/client_registry.cpp).
use memory_aware_governor.Base.{ℕ, ◌≡◌, refl, false, none, some, [], ◌∷◌}
use memory_aware_governor.Registry.{new_registry}
use memory_aware_governor.Registry.Server.{StartCalls, no_bind, start, stop}

-- If a new registry is started and its socket cannot be bound, start throws; a later start,
-- whatever its calls would return, then does nothing and throws nothing, and stop closes the
-- socket that start has closed already a second time.
pub failed_start_sticks :
    (calls again : StartCalls) (fd : ℕ)
    → calls.socket ≡ some fd
    → calls.bind ≡ false
    → let failed = start calls new_registry in
      (failed.1 ≡ some no_bind)
      × (start again failed.0 ≡ (failed.0, none))
      × ((stop failed.0).closed ≡ fd ∷ fd ∷ [])
unfolding start stop
failed_start_sticks calls again fd e f = rw (e, f) (refl, refl, refl)
