-- ===== src/Lru/Refinement.antt =====
-- The pointer code of `LRUCache` (include/client/governed_cache.h) implements its specification.
pub mod Get
pub mod Put
pub mod Resize
use memory_aware_governor.Base.{
  ℕ, zero, suc, ◌+◌, ◌-◌, ◌%◌, ◌≤◌, ◌<◌, ◌≡◌, ◌∙◌, sym, refl, ap, Option, none, some, [], ◌∷◌, ◌++◌,
  arith, length, length-append, length-map, inl, inr, Option-cases, >>=-some, ◌==◌, if◌then◌else◌,
  u64,
}
use memory_aware_governor.Lru.{Cache, empty, get, put, evict_lru}
use memory_aware_governor.Lru.Calls.{IsCache-stats, get-miss, get-hit, put-update, put-new_branch}
use memory_aware_governor.Lru.Invariant.{find, find-Found, Found, IsCache}
use memory_aware_governor.Lru.Segment.{Ptr, null, Cells}
use memory_aware_governor.Lru.Spec.{
  Contents, entries_of, drop_last, lookup, remove, get_spec, kept, put_spec, lookup-none,
  lookup-split, remove-split,
}

module _ {K V : Type 0} where
  abbrev pub no_contents : ℕ → Contents K V
  no_contents n = record { entries = []; limit = n; hit_count = 0; miss_count = 0 }

module _ {K V : Type 0} (dec : Discrete K) where
  -- The cache `c` stands for the contents `m`.
  pub record Refines (c : Cache K V) (m : Contents K V) : Type 0 where
    pub cells : Cells K V
    pub valid : IsCache dec c cells
    pub entries : entries_of cells ≡ m.entries
    pub limit : c.capacity ≡ m.limit
    pub hit_count : c.hits ≡ m.hit_count
    pub miss_count : c.misses ≡ m.miss_count

  -- The constructor makes an empty cache.
  pub empty-Refines : (n : ℕ) → Refines (empty n) (no_contents n)
  unfolding empty
  empty-Refines n = record {
    cells = [];
    valid = record {
      links = tt;
      apart = tt;
      owned = λ a o. refl;
      at_head = refl;
      at_tail = refl;
      index = λ k. refl;
      keys = tt;
      count = refl;
    };
    entries = refl;
    limit = refl;
    hit_count = refl;
    miss_count = refl;
  }
