-- ===== src/Governed.antt =====
-- The class `GovernedCache` of src/client/governed_cache.cpp: a cache whose capacity follows the commands
-- of the daemon.
--
-- The state is the client and the cache. `estimated_entry_bytes`, the result of `getpid()` and the
-- results of the writes are arguments. `none` is a fault (of the cache, or a division by zero), or a
-- call whose writes do not come to an end with the results given.
pub mod Commands
pub mod Collapse
pub mod Destroy
pub mod Tracking
use memory_aware_governor.Base.{
  ℕ, zero, ◌+◌, ◌*◌, ◌/◌, ◌%◌, Bool, true, false, Option, none, some, List, ◌==◌, ltb,
  if◌then◌else◌, ◌>>=◌, u64,
}
use memory_aware_governor.Base.Double.{Doubles}
use memory_aware_governor.Base.Int.{ℤ}
use memory_aware_governor.Lru.{Cache, empty, resize}
use memory_aware_governor.Lru.Segment.{Ptr}
use memory_aware_governor.Client.{
  Client, ConnectCalls, WriteResult, Callbacks, new_client, connect, disconnect, register_cache,
  report_size, start_listening, stop_listening,
}

abbrev pub Governed : Type 0 → Type 0 → Type 0
Governed K V = Client × Cache K V

pub record CacheStats (D : Type 0) : Type 0 where
  pub size : ℕ
  pub capacity : ℕ
  pub rate : D
  pub hits : ℕ
  pub misses : ℕ

-- `size_t / size_t`
abbrev pub divide : ℕ → ℕ → Option ℕ
divide n d = if d == 0 then none else some (n / d)

module _ {K V : Type 0} where
  abbrev pub new_governed : ℕ → Governed K V
  new_governed max_capacity = (new_client, empty max_capacity)

  -- `cache_->size() * estimated_entry_bytes_`
  abbrev pub size_bytes : ℕ → Cache K V → ℕ
  size_bytes entry_bytes cache = (cache.size * entry_bytes) % u64

  abbrev pub start_connected :
      ℕ → ℤ → List WriteResult → Cache K V → Client × Bool → Option (Governed K V)
  start_connected entry_bytes pid writes cache (client, false) = some (client, cache)
  start_connected entry_bytes pid writes cache (client, true) = do
    sent ← register_cache pid (size_bytes entry_bytes cache) writes client
    some (start_listening sent.0, cache)

  unfoldable pub start :
      ℕ → ℤ → ConnectCalls → List WriteResult → Governed K V → Option (Governed K V)
  start entry_bytes pid calls writes (client, cache) =
      start_connected entry_bytes pid writes cache (connect calls client)

  unfoldable pub stop : Governed K V → Governed K V
  stop (client, cache) = (disconnect (stop_listening client), cache)

  -- The destructor, and those of the members: the client first, and the cache after it.
  unfoldable pub destroy : Governed K V → Option (Governed K V)
  destroy g = do
    cache1 ← memory_aware_governor.Lru.destroy (stop g).1
    some (memory_aware_governor.Client.destroy (stop g).0, cache1)

  module _ (d : Doubles) where
    open d use {Double, literal, of_u64, div}

    unfoldable pub hit_rate : Cache K V → Double
    hit_rate cache =
        let total = (cache.hits + cache.misses) % u64 in
        if total == 0 then literal 0 else div (of_u64 cache.hits) (of_u64 total)

    unfoldable pub get_stats : Governed K V → CacheStats Double
    get_stats (client, cache) = record {
      size = cache.size;
      capacity = cache.capacity;
      rate = hit_rate cache;
      hits = cache.hits;
      misses = cache.misses;
    }

module _ {K V : Type 0} (dec : Discrete K) where
  -- `get` and `put` of the cache, under the lock.
  unfoldable pub get : K → Governed K V → Option (Option V × Governed K V)
  get key (client, cache) = do
    found ← memory_aware_governor.Lru.get dec key cache
    some (found.0, (client, found.1))

  unfoldable pub put : Ptr → K → V → Governed K V → Option (Governed K V)
  put fresh key value (client, cache) = do
    cache1 ← memory_aware_governor.Lru.put dec fresh key value cache
    some (client, cache1)

module _ {K V : Type 0} (dec : Discrete K) (entry_bytes : ℕ) (pid : ℤ)
    (writes : List WriteResult) where
  -- The new capacity, and the report of the size that the cache then has.
  abbrev pub apply_capacity : ℕ → Governed K V → Option (Governed K V)
  apply_capacity target_capacity (client, cache) = do
    cache1 ← resize dec target_capacity cache
    sent ← report_size pid (size_bytes entry_bytes cache1) writes client
    some (sent.0, cache1)

  unfoldable pub handle_shrink : ℕ → Governed K V → Option (Governed K V)
  handle_shrink target_bytes (client, cache) = do
    target_capacity ← divide target_bytes entry_bytes
    if ltb target_capacity cache.capacity
        then apply_capacity target_capacity (client, cache)
        else some (client, cache)

  unfoldable pub handle_grow : ℕ → Governed K V → Option (Governed K V)
  handle_grow target_bytes (client, cache) = do
    target_capacity ← divide target_bytes entry_bytes
    if ltb cache.capacity target_capacity
        then apply_capacity target_capacity (client, cache)
        else some (client, cache)

  -- The callbacks that the constructor sets.
  abbrev pub callbacks : Callbacks (Cache K V)
  callbacks = record { shrink_callback = some handle_shrink; grow_callback = some handle_grow }
