-- ===== src/Governed/Destroy.antt =====
-- The destructor of `GovernedCache` (src/client/governed_cache.cpp) with those of its members.
use memory_aware_governor.Base.{
  ℕ, ◌+◌, ◌≡◌, refl, Bool, true, false, Option, none, some, arith, count, >>=-some,
}
use memory_aware_governor.Client.{Client, disconnect, stop_listening}
use memory_aware_governor.Client
use memory_aware_governor.Governed.{Governed, stop, destroy}
use memory_aware_governor.Lru.{Cache}
use memory_aware_governor.Lru.Invariant.{IsCache}
use memory_aware_governor.Lru.Refinement.Resize.{destroy-frees}
use memory_aware_governor.Lru.Segment.{Cells}
use memory_aware_governor.Registry.Closing.{held}

-- A client that is off, and that has closed a socket besides those that another one has closed, if that
-- one had a socket.
pub record Off (before c : Client) : Type 0 where
  pub no_socket : c.sock_fd ≡ none
  pub disconnected : c.connected ≡ false
  pub silent : c.listening ≡ false
  pub all_closed : (p : ℕ) → count p c.closed ≡ held p before.sock_fd + count p before.closed

stopped-Off :
    (socket : Option ℕ) (listening : Bool) (c : Client)
    → let before : Client = record c { sock_fd = socket; listening = listening } in
      Off before (Client.destroy (disconnect (stop_listening before)))
unfolding disconnect stop_listening Client.destroy
stopped-Off none true c = record {
  no_socket = refl;
  disconnected = refl;
  silent = refl;
  all_closed = λ p. omega arith;
}
stopped-Off none false c = record {
  no_socket = refl;
  disconnected = refl;
  silent = refl;
  all_closed = λ p. omega arith;
}
stopped-Off (some fd) true c = record {
  no_socket = refl;
  disconnected = refl;
  silent = refl;
  all_closed = λ p. omega arith;
}
stopped-Off (some fd) false c = record {
  no_socket = refl;
  disconnected = refl;
  silent = refl;
  all_closed = λ p. omega arith;
}

module _ {K V : Type 0} (dec : Discrete K) where
  -- The destructor of a governed cache whose LRU cache meets its invariant meets no fault: it
  -- deletes every node once, so that no node is left on the heap, and the client is then
  -- disconnected, does not listen, and has closed its socket, if it had one, once.
  pub destroy_releases :
      (client : Client) (cache : Cache K V) (xs : Cells K V)
      → IsCache dec cache xs
      → (g : Governed K V) × (destroy (client, cache) ≡ some g)
        × Off client g.0
        × ((a : ℕ) → g.1.heap a ≡ none)
  unfolding destroy stop
  destroy_releases client cache xs v =
      let (c1, runs, freed) = destroy-frees dec cache xs v in
      (
        (Client.destroy (disconnect (stop_listening client)), c1),
        >>=-some c1 _ _ _ runs refl,
        stopped-Off client.sock_fd client.listening client,
        freed,
      )
