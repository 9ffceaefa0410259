-- ===== src/Tests/Lru.antt =====
-- `LRUCache` of include/client/governed_cache.h at small caches.
use memory_aware_governor.Base.{ℕ, ◌≡◌, ◌≤◌, refl, none, some, List, [], ◌∷◌, arith}
use memory_aware_governor.Lru.{
  Cache, empty, load, set_next, set_prev, set_value, delete_node, add_to_front, unlink,
  move_to_front, destroy_from, destroy, map_erase, map_insert, evict_lru, evict_loop, evict_to,
  resize, get, insert_new, put,
}
use memory_aware_governor.Lru.Invariant.{find, IsCache}
use memory_aware_governor.Lru.Overflow.{puts, put_bound, zero_capacity_grows}
use memory_aware_governor.Lru.Refinement.{Refines, no_contents, empty-Refines}
use memory_aware_governor.Lru.Refinement.Get.{get-Refines}
use memory_aware_governor.Lru.Refinement.Put.{put-Refines}
use memory_aware_governor.Lru.Refinement.Resize.{evict_to-Refines, resize-Refines}
use memory_aware_governor.Lru.Segment.{null, node, Cells, write}
use memory_aware_governor.Lru.Sessions.{
  Call, get_call, put_call, resize_call, run, run_spec, run-Refines,
}
use memory_aware_governor.Lru.Spec.{
  Contents, drop_last, take, lookup, remove, get_spec, kept, put_spec, evict_to_spec, resize_spec,
}
use native.Mathlib.Decide.{ℕ_discrete as dec}

program : Unit {0}
unfolding empty load set_next set_prev set_value delete_node add_to_front unlink move_to_front
    destroy_from destroy map_erase map_insert evict_lru evict_loop evict_to resize get insert_new
    put write run dec
program = tt

specification : Unit {0}
unfolding drop_last take lookup remove get_spec kept put_spec evict_to_spec resize_spec run_spec dec
specification = tt

abbrev pub two_cells : Cells ℕ ℕ
two_cells = (1, 7, 70) ∷ (2, 8, 80) ∷ []

-- A full cache of capacity 2, the key 7 used last.
abbrev pub two : Cache ℕ ℕ
two = record {
  capacity = 2;
  size = 2;
  head = 1;
  tail = 2;
  map = λ k. find dec k two_cells;
  hits = 0;
  misses = 0;
  heap = write (write (λ _. none) 1 (some (node 7 70 null 2))) 2 (some (node 8 80 1 null));
}

abbrev pub two_contents : Contents ℕ ℕ
two_contents = record { entries = (7, 70) ∷ (8, 80) ∷ []; limit = 2; hit_count = 0; miss_count = 0 }

pub two-IsCache : IsCache dec two two_cells
unfolding write dec
two-IsCache = record {
  links = (refl, (refl, tt));
  apart = (omega arith, refl, (omega arith, refl, tt));
  owned = λ a h. ground arith;
  at_head = refl;
  at_tail = refl;
  index = λ k. refl;
  keys = (refl, (refl, tt));
  count = refl;
}

pub two-Refines : Refines dec two two_contents
two-Refines = record {
  cells = two_cells;
  valid = two-IsCache;
  entries = refl;
  limit = refl;
  hit_count = refl;
  miss_count = refl;
}

two_unused : two.heap 3 ≡ none
unfolding write
two_unused = refl

abbrev session : List (Call ℕ ℕ)
session =
    put_call 1 7 70
    ∷ put_call 2 8 80
    ∷ get_call 7
    ∷ put_call 3 9 90
    ∷ get_call 8
    ∷ get_call 7
    ∷ put_call 4 7 71
    ∷ resize_call 1
    ∷ get_call 9
    ∷ get_call 7
    ∷ []

-- The key 8 is evicted by the key 9, and the key 9 by the smaller capacity.
session_results :
    (run_spec dec session (no_contents 2)).0 ≡ some 70 ∷ none ∷ some 70 ∷ none ∷ some 71 ∷ []
unfolding specification
session_results = refl

run-Refines_example :
    (c : Cache ℕ ℕ) × (run dec session (empty 2)
      ≡ some ((run_spec dec session (no_contents 2)).0, c))
    × Refines dec c (run_spec dec session (no_contents 2)).1
unfolding program
run-Refines_example =
    run-Refines dec session (empty 2) (no_contents 2) (empty-Refines dec 2)
      (omega arith, refl, (omega arith, refl, (omega arith, refl, (omega arith, refl, tt))))
      (omega arith)

get-Refines_example :
    (c : Cache ℕ ℕ) × (get dec 8 two ≡ some ((get_spec dec 8 two_contents).0, c))
    × Refines dec c (get_spec dec 8 two_contents).1
get-Refines_example = get-Refines dec 8 two two_contents two-Refines

put-Refines_example :
    (c : Cache ℕ ℕ) × (put dec 3 9 90 two ≡ some c) × Refines dec c (put_spec dec 9 90 two_contents)
put-Refines_example =
    put-Refines dec 3 9 90 two two_contents two-Refines (omega arith) two_unused (omega arith)

evict_to-Refines_example :
    (c : Cache ℕ ℕ) × (evict_to dec 1 two ≡ some c) × Refines dec c (evict_to_spec 1 two_contents)
evict_to-Refines_example = evict_to-Refines dec 1 two two_contents two-Refines (omega arith)

resize-Refines_example :
    (c : Cache ℕ ℕ) × (resize dec 1 two ≡ some c) × Refines dec c (resize_spec 1 two_contents)
resize-Refines_example = resize-Refines dec 1 two two_contents two-Refines (omega arith)

put_bound_example :
    (c : Cache ℕ ℕ) × (put dec 3 9 90 two ≡ some c) × (c.capacity ≡ 2) × (c.size ≤ 2)
put_bound_example =
    put_bound dec 3 9 90 two two_contents two-Refines (omega arith) two_unused (omega arith)
      (omega arith) (omega arith)

zero_capacity_grows_example :
    (c : Cache ℕ ℕ) × (run dec (puts ((1, 7, 70) ∷ (2, 8, 80) ∷ (3, 9, 90) ∷ [])) (empty 0)
      ≡ some ([], c))
    × (c.capacity ≡ 0)
    × (c.size ≡ 3)
unfolding program lookup
zero_capacity_grows_example =
    zero_capacity_grows dec ((1, 7, 70) ∷ (2, 8, 80) ∷ (3, 9, 90) ∷ []) (empty 0) (no_contents 0)
      (empty-Refines dec 0) refl (refl, (refl, (refl, tt)))
      (omega arith, refl, (omega arith, refl, (omega arith, refl, tt))) (omega arith)
