-- ===== src/Lru.antt =====
-- The class `LRUCache<Key, Value>` of include/client/governed_cache.h: a doubly linked list of heap
-- nodes, most recently used first, and a hash map from keys to nodes.
--
-- An address is a number and `nullptr` is 0. A read or write through the null pointer or through an
-- address that holds no node is a fault, `none`; so is a `delete` of such an address. The heap is
-- the part of the memory that the cache owns. `unordered_map` is a function from keys to addresses,
-- since the class never walks it. `size_t` and `uint64_t` counters wrap at 2 to the 64.
pub mod Segment
pub mod Invariant
pub mod Keys
pub mod Steps
pub mod Front
pub mod Unlink
pub mod Access
pub mod Evict
pub mod Insert
pub mod Update
pub mod Calls
pub mod Spec
pub mod Refinement
pub mod Sessions
pub mod Lookups
pub mod Overflow
use memory_aware_governor.Lru.Segment.{Ptr, null, Node, node, Heap, write}
use memory_aware_governor.Base.{
  ℕ, zero, suc, ◌+◌, ◌-◌, ◌%◌, Bool, ◌&&◌, Option, none, some, ◌==◌, ltb, if◌then◌else◌, ◌>>=◌, u64,
}
use mathlib.Core.Logic.{ite}

pub record Cache (K V : Type 0) : Type 0 where
  pub capacity : ℕ
  pub size : ℕ
  pub head : Ptr
  pub tail : Ptr
  pub map : K → Option Ptr
  pub hits : ℕ
  pub misses : ℕ
  pub heap : Heap K V

module _ {K V : Type 0} where
  -- `LRUCache(size_t max_capacity)`
  unfoldable pub empty : ℕ → Cache K V
  empty max_capacity = record {
    capacity = max_capacity;
    size = 0;
    head = null;
    tail = null;
    map = λ _. none;
    hits = 0;
    misses = 0;
    heap = λ _. none;
  }

  -- `*p`
  unfoldable pub load : Cache K V → Ptr → Option (Node K V)
  load c p = if p == null then none else c.heap p

  -- `p->next = q`
  unfoldable pub set_next : Ptr → Ptr → Cache K V → Option (Cache K V)
  set_next p q c = do
    n ← load c p
    some (record c { heap = write c.heap p (some (record n { next = q })) })

  -- `p->prev = q`
  unfoldable pub set_prev : Ptr → Ptr → Cache K V → Option (Cache K V)
  set_prev p q c = do
    n ← load c p
    some (record c { heap = write c.heap p (some (record n { prev = q })) })

  -- `p->value = v`
  unfoldable pub set_value : Ptr → V → Cache K V → Option (Cache K V)
  set_value p v c = do
    n ← load c p
    some (record c { heap = write c.heap p (some (record n { value = v })) })

  -- `delete p`
  unfoldable pub delete_node : Ptr → Cache K V → Option (Cache K V)
  delete_node p c = do n ← load c p; some (record c { heap = write c.heap p none })

  unfoldable pub add_to_front : Ptr → Cache K V → Option (Cache K V)
  add_to_front p c = do
    c1 ← set_next p c.head c
    c2 ← set_prev p null c1
    c3 ← if c2.head == null then some c2 else set_prev c2.head p c2
    let c4 = record c3 { head = p }
    some (if c4.tail == null then record c4 { tail = c4.head } else c4)

  -- The first half of `move_to_front`: "Remove from current pos".
  unfoldable pub unlink : Ptr → Cache K V → Option (Cache K V)
  unlink p c = do
    n1 ← load c p
    c1 ← if n1.prev == null then some c else set_next n1.prev n1.next c
    n2 ← load c1 p
    c2 ← if n2.next == null then some c1 else set_prev n2.next n2.prev c1
    n3 ← load c2 p
    some (if p == c2.tail then record c2 { tail = n3.prev } else c2)

  -- The second half of `move_to_front` has the statements of `add_to_front`.
  unfoldable pub move_to_front : Ptr → Cache K V → Option (Cache K V)
  move_to_front p c = if p == c.head then some c else (do c1 ← unlink p c; add_to_front p c1)

  abbrev pub size : Cache K V → ℕ
  size c = c.size

  abbrev pub capacity : Cache K V → ℕ
  capacity c = c.capacity

  unfoldable pub reset_stats : Cache K V → Cache K V
  reset_stats c = record c { hits = 0; misses = 0 }

  -- `~LRUCache`: the walk that deletes each node. `none` is also the end of the fuel.
  unfoldable pub destroy_from : ℕ → Ptr → Cache K V → Option (Cache K V)
  destroy_from zero curr c = none
  destroy_from (suc fuel) curr c =
      if curr == null
      then some c
      else do n ← load c curr; c1 ← delete_node curr c; destroy_from fuel n.next c1

  unfoldable pub destroy : Cache K V → Option (Cache K V)
  destroy c = destroy_from (c.size + 1) c.head c

module _ {K : Type 0} (dec : Discrete K) where
  -- `map_.erase(key)`
  unfoldable pub map_erase : K → (K → Option Ptr) → K → Option Ptr
  map_erase k m q = ite (dec k q) none (m q)

  -- `map_[key] = p`
  unfoldable pub map_insert : K → Ptr → (K → Option Ptr) → K → Option Ptr
  map_insert k p m q = ite (dec k q) (some p) (m q)

module _ {K V : Type 0} (dec : Discrete K) where
  unfoldable pub evict_lru : Cache K V → Option (Cache K V)
  evict_lru c = if c.tail == null then some c else do
    n ← load c c.tail
    let c1 = record c { map = map_erase dec n.key c.map; tail = n.prev }
    c2 ← if n.prev == null then some (record c1 { head = null }) else set_next n.prev null c1
    c3 ← delete_node c.tail c2
    some (record c3 { size = (c3.size + u64 - 1) % u64 })

  -- The loop of `evict_to`. `none` is also the end of the fuel.
  unfoldable pub evict_loop : ℕ → ℕ → Cache K V → Option (Cache K V)
  evict_loop zero new_capacity c = none
  evict_loop (suc fuel) new_capacity c =
      if ltb new_capacity c.size && ltb 0 c.size
      then (do c1 ← evict_lru c; evict_loop fuel new_capacity c1)
      else some c

  unfoldable pub evict_to : ℕ → Cache K V → Option (Cache K V)
  evict_to new_capacity c = evict_loop (c.size + 1) new_capacity c

  unfoldable pub resize : ℕ → Cache K V → Option (Cache K V)
  resize new_capacity c = evict_to new_capacity (record c { capacity = new_capacity })

  -- The value that is returned is read behind `move_to_front`.
  unfoldable pub get : K → Cache K V → Option (Option V × Cache K V)
  get key c = elim (c.map key) [
    | none ↦ some (none, record c { misses = (c.misses + 1) % u64 })
    | some p ↦ do
      c1 ← move_to_front p (record c { hits = (c.hits + 1) % u64 })
      n ← load c1 p
      some (some n.value, c1)
  ]

  -- `put` of a key that is not in the map, behind the eviction. `fresh` is what `new` returns.
  unfoldable pub insert_new : Ptr → K → V → Cache K V → Option (Cache K V)
  insert_new fresh key value c = do
    let c1 = record c {
      heap = write c.heap fresh (some (node key value null null));
      map = map_insert dec key fresh c.map;
    }
    c2 ← add_to_front fresh c1
    some (record c2 { size = (c2.size + 1) % u64 })

  unfoldable pub put : Ptr → K → V → Cache K V → Option (Cache K V)
  put fresh key value c = elim (c.map key) [
    | some p ↦ do c1 ← set_value p value c; move_to_front p c1
    | none ↦ do
      c1 ← if c.size == c.capacity then evict_lru c else some c
      insert_new fresh key value c1
  ]
