-- ===== src/System.antt =====
-- From the broadcast of the daemon to the cache of a client: src/governor/client_registry.cpp,
-- src/client/governor_client.cpp and src/client/governed_cache.cpp together.
pub mod Reports
pub mod Cycle
use memory_aware_governor.Base.{ℕ, ◌*◌, ◌/◌, ◌≤◌, ◌<◌, ◌≡◌, ◌∙◌, ap, true, List, arith, u64}
use memory_aware_governor.Base.Double.{Doubles}
use memory_aware_governor.Base.Int.{ℤ}
use memory_aware_governor.Protocol.Framing.{payload}
use memory_aware_governor.Lru.{Cache}
use memory_aware_governor.Lru.Refinement.{Refines}
use memory_aware_governor.Lru.Spec.{Contents, resize_spec}
use memory_aware_governor.Client.{Client, WriteResult, process_message}
use memory_aware_governor.Client.Commands.{Reads, message_dispatched}
use memory_aware_governor.Client.Listener.{Loop, Round, goes_on, after_command, listener_round}
use memory_aware_governor.Governed.{callbacks}
use memory_aware_governor.Governed.Commands.{Ends, shrink_fits}
use memory_aware_governor.Registry.{ClientInfo}
use memory_aware_governor.Registry.Send.{shrink_command}

module _ (d : Doubles) {K V : Type 0} (dec : Discrete K) where
  open d use {Double}

  -- The SHRINK that the daemon makes for the entry of a client, with a target below 2 to the 64,
  -- reaches the cache: if a round of the connected, listening client reads its frame, the header
  -- in one read and the payload in any number of parts, and the cache stands for some contents,
  -- with a size below 2 to the 64, a positive estimate of the bytes of an entry, a capacity above
  -- the quotient of the target by the estimate and a sending of reports that comes to an end,
  -- then the loop goes on with a cache that stands for its most recently used entries, as many as
  -- the quotient, and whose size times the estimate is at most the target.
  pub shrink_reaches_cache :
      (e : ℕ) (pid : ℤ) (writes : List WriteResult) (fraction : Double) (info : ClientInfo)
      (round : Round) (l : Loop (Cache K V)) (m : Contents K V)
      → let t = (shrink_command d fraction info).target_bytes in
        t < u64
        → l.client.listening ≡ true
        → l.client.connected ≡ true
        → Reads round (payload (shrink_command d fraction info))
        → Refines dec l.owner m
        → l.owner.size < u64
        → Ends pid writes l.client
        → 0 < e
        → t / e < l.owner.capacity
        → (c1 : Cache K V) × (client1 : Client) × (listener_round
              (callbacks dec e pid writes)
              round
              l
            ≡ goes_on (record l { client = client1; owner = c1 }))
          × Refines dec c1 (resize_spec (t / e) m)
          × (c1.size * e ≤ t)
  unfolding process_message
  shrink_reaches_cache e pid writes fraction info round l m few on up reads r small ends pos_e
        less =
      let command = shrink_command d fraction info in
      let (c1, sent, runs, _, r1, fit) =
        shrink_fits dec e pid writes command.target_bytes l.client l.owner m r small ends pos_e
          less in
      (
        c1,
        sent.0,
        message_dispatched (callbacks dec e pid writes) round l command on up
              (omega arith, few, omega arith, omega arith) reads
            ∙ ap (after_command (callbacks dec e pid writes) l) runs,
        r1,
        fit,
      )
