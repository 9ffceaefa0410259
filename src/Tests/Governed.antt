-- ===== src/Tests/Governed.antt =====
-- `GovernedCache` of src/client/governed_cache.cpp with small caches, and a client that is not connected.
use memory_aware_governor.Base.{
  ℕ, ◌*◌, ◌/◌, ◌≡◌, ◌≤◌, refl, Bool, true, none, ◌∷◌, false, some, [], arith,
}
use memory_aware_governor.Base.Int.{pos}
use memory_aware_governor.Lru.{Cache}
use memory_aware_governor.Lru.Refinement.{Refines}
use memory_aware_governor.Lru.Spec.{resize_spec}
use memory_aware_governor.Client.{Client, new_client, report_size, send_message}
use memory_aware_governor.Governed.{Governed, destroy, size_bytes, handle_shrink}
use memory_aware_governor.Governed.Collapse.{empty_report_collapses}
use memory_aware_governor.Governed.Destroy.{Off, destroy_releases}
use memory_aware_governor.Governed.Commands.{Ends, shrink_fits}
use memory_aware_governor.Registry.{new_info}
use memory_aware_governor.Registry.Send.{shrink_command}
use memory_aware_governor.Tests.{hundredths}
use memory_aware_governor.Tests.Lru.{two, two_cells, two-IsCache, two_contents, two-Refines}
use native.Mathlib.Decide.{ℕ_discrete as dec}

abbrev Report : Cache ℕ ℕ → Client × Bool → Type 0
Report c1 sent = report_size (pos 10) (size_bytes 256 c1) [] new_client ≡ some sent

not_connected : Ends (pos 10) [] new_client
unfolding report_size send_message
not_connected n = ((new_client, false), refl)

shrink_fits_example :
    (c1 : Cache ℕ ℕ) × (sent : Client × Bool) × (handle_shrink dec 256
        (pos 10)
        []
        300
        (new_client, two)
      ≡ some (sent.0, c1))
    × Report c1 sent
    × Refines dec c1 (resize_spec (300 / 256) two_contents)
    × (c1.size * 256 ≤ 300)
shrink_fits_example =
    shrink_fits dec 256 (pos 10) [] 300 new_client two two_contents two-Refines (omega arith)
      not_connected (omega arith) (omega arith)

empty_report_collapses_example :
    (c1 : Cache ℕ ℕ) × (client1 : Client) × (handle_shrink dec 256
        (pos 10)
        []
        (shrink_command hundredths 25 (new_info 5 0)).target_bytes
        (new_client, two)
      ≡ some (client1, c1))
    × (c1.capacity ≡ 0)
    × (c1.size ≡ 0)
empty_report_collapses_example =
    empty_report_collapses hundredths dec 256 (pos 10) [] 25 (new_info 5 0) new_client two
      two_contents refl refl two-Refines (omega arith) not_connected (omega arith) (omega arith)

-- A client with the socket 9, which listens.
abbrev up : Client
up = record { sock_fd = some 9; connected = true; listening = true; closed = 4 ∷ []; sent = [] }

destroy_releases_example :
    (g : Governed ℕ ℕ) × (destroy (up, two) ≡ some g) × Off up g.0 × ((a : ℕ) → g.1.heap a ≡ none)
destroy_releases_example = destroy_releases dec up two two_cells two-IsCache
