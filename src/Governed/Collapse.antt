-- ===== src/Governed/Collapse.antt =====
-- What a SHRINK does to a cache whose last report was 0 bytes (src/client/governed_cache.cpp and
-- src/governor/client_registry.cpp).
use mathlib.Core.Path.{subst}
use native.Mathlib.Nat.{zero-div}
use memory_aware_governor.Base.{ℕ, ◌/◌, ◌<◌, ◌≡◌, sym, ◌∙◌, ap, some, List, arith, u64}
use memory_aware_governor.Base.Double.{Doubles}
use memory_aware_governor.Base.Int.{ℤ}
use memory_aware_governor.Lru.{Cache}
use memory_aware_governor.Lru.Refinement.{Refines}
use memory_aware_governor.Lru.Refinement.Put.{length-entries}
use memory_aware_governor.Lru.Spec.{Contents, resize_spec, take}
use memory_aware_governor.Client.{Client, WriteResult}
use memory_aware_governor.Registry.{ClientInfo}
use memory_aware_governor.Registry.Send.{shrink_command}
use memory_aware_governor.Governed.{handle_shrink}
use memory_aware_governor.Governed.Commands.{Ends, shrink_fits}

nothing : (e : ℕ) → 0 < e → 0 / e ≡ 0
nothing e h = zero-div e

module _ (d : Doubles) {K V : Type 0} (dec : Discrete K) where
  open d use {Double, literal, sub, mul, of_u64, to_u64}

  -- A client whose last reported size is 0 is sent a SHRINK with the target 0, if 0 times the
  -- factor of the command converts to 0. A cache that stands for some contents, with a size below
  -- 2 to the 64, a positive capacity, a positive estimate and a sending of reports that comes to
  -- an end, then loses every entry and has the capacity 0, without a fault.
  pub empty_report_collapses :
      (e : ℕ) (pid : ℤ) (writes : List WriteResult) (fraction : Double) (info : ClientInfo)
      (client : Client) (c : Cache K V) (m : Contents K V)
      → to_u64 (mul (of_u64 0) (sub (literal 100) fraction)) ≡ 0
      → info.current_size_bytes ≡ 0
      → Refines dec c m
      → c.size < u64
      → Ends pid writes client
      → 0 < e
      → 0 < c.capacity
      → (c1 : Cache K V) × (client1 : Client) × (handle_shrink dec e pid writes
            (shrink_command d fraction info).target_bytes
            (client, c)
          ≡ some (client1, c1))
        × (c1.capacity ≡ 0)
        × (c1.size ≡ 0)
  unfolding resize_spec take
  empty_report_collapses e pid writes fraction info client c m zero_law none_yet r small ends pos_e
        room =
      let target = (shrink_command d fraction info).target_bytes in
      let no_bytes : target ≡ 0 =
        ap (λ (n : ℕ). to_u64 (mul (of_u64 n) (sub (literal 100) fraction))) none_yet ∙ zero_law in
      let none_fit : target / e ≡ 0 = ap (λ (t : ℕ). t / e) no_bytes ∙ nothing e pos_e in
      let (c1, sent, runs, _, r1, _) =
        shrink_fits dec e pid writes target client c m r small ends pos_e
          (omega (arith, none_fit, room)) in
      let r0 : Refines dec c1 (resize_spec 0 m) =
        subst (λ (n : ℕ). Refines dec c1 (resize_spec n m)) none_fit r1 in
      (c1, sent.0, runs, r0.limit, sym (length-entries dec c1 (resize_spec 0 m) r0))
