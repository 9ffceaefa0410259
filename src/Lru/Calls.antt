-- ===== src/Lru/Calls.antt =====
-- The branches of `get` and `put` of include/client/governed_cache.h, on heaps that meet the
-- invariant.
use memory_aware_governor.Base.{
  ℕ, ◌+◌, ◌%◌, ◌≡◌, ◌∙◌, refl, none, some, ◌∷◌, ◌++◌, >>=-some, ◌>>=◌, u64, ◌==◌, if◌then◌else◌,
}
use memory_aware_governor.Lru.{
  Cache, load, move_to_front, set_value, evict_lru, insert_new, get, put,
}
use memory_aware_governor.Lru.Access.{moved, move_to_front-Moved}
use memory_aware_governor.Lru.Invariant.{find, IsCache}
use memory_aware_governor.Lru.Segment.{Ptr, Heap, Cells, first_or, null}
use memory_aware_governor.Lru.Steps.{load_lem}
use memory_aware_governor.Lru.Update.{set_value-IsCache}

module _ {K V : Type 0} (dec : Discrete K) (c : Cache K V) (k : K) where
  abbrev missed : Cache K V
  missed = record c { misses = (c.misses + 1) % u64 }

  abbrev hit : Cache K V
  hit = record c { hits = (c.hits + 1) % u64 }

  pub get-miss : c.map k ≡ none → get dec k c ≡ some (none, missed)
  unfolding get
  get-miss e = rw (e, get)

  get-branch :
      (p : Ptr)
      → c.map k ≡ some p
      → get dec k c ≡ (do c1 ← move_to_front p hit; n ← load c1 p; some (some n.value, c1))
  unfolding get
  get-branch p e = rw (e, get)

  put-update_branch :
      (fresh p : Ptr) (v : V)
      → c.map k ≡ some p
      → put dec fresh k v c ≡ (do c1 ← set_value p v c; move_to_front p c1)
  unfolding put
  put-update_branch fresh p v e = rw (e, put)

  pub put-new_branch :
      (fresh : Ptr) (v : V)
      → c.map k ≡ none
      → put dec fresh k v c ≡ (do
        c1 ← if c.size == c.capacity then evict_lru dec c else some c
        insert_new dec fresh k v c1)
  unfolding put
  put-new_branch fresh v e = rw (e, put)

module _ {K V : Type 0} (dec : Discrete K) where
  -- The capacity and the counters are no part of the invariant.
  pub IsCache-stats :
      (c : Cache K V) (n h m : ℕ) (xs : Cells K V)
      → IsCache dec c xs
      → IsCache dec (record c { capacity = n; hits = h; misses = m }) xs
  IsCache-stats c n h m xs s = record {
    links = s.links;
    apart = s.apart;
    owned = s.owned;
    at_head = s.at_head;
    at_tail = s.at_tail;
    index = s.index;
    keys = s.keys;
    count = s.count;
  }

  -- `get` of a key that is in the cache returns its value and moves its node to the front.
  pub get-hit :
      (c : Cache K V) (ws : Cells K V) (p : Ptr) (k : K) (v : V) (zs : Cells K V)
      → c.map k ≡ some p
      → find dec k ws ≡ none
      → IsCache dec c (ws ++ (p, k, v) ∷ zs)
      → (h : Heap K V) × (t : Ptr) × (get dec k c ≡ some (some v, moved (hit dec c k) p h t))
        × IsCache dec (moved (hit dec c k) p h t) ((p, k, v) ∷ ws ++ zs)
  get-hit c ws p k v zs e absent s =
      let mv =
        move_to_front-Moved dec (hit dec c k) ws p k v zs absent
          (IsCache-stats c c.capacity ((c.hits + 1) % u64) c.misses (ws ++ (p, k, v) ∷ zs) s) in
      (
        mv.heap,
        mv.tail,
        get-branch dec c k p e
            ∙ >>=-some _ _ _ _ mv.runs (
                >>=-some _ _ _ _
                  (load_lem (moved (hit dec c k) p mv.heap mv.tail) p k v null
                    (first_or null (ws ++ zs)) mv.valid.apart.0 mv.valid.links.0)
                  refl),
        mv.valid,
      )

  -- `put` of a key that is in the cache stores the value and moves its node to the front.
  pub put-update :
      (c : Cache K V) (fresh : Ptr) (ws : Cells K V) (p : Ptr) (k : K) (v w : V) (zs : Cells K V)
      → c.map k ≡ some p
      → find dec k ws ≡ none
      → IsCache dec c (ws ++ (p, k, v) ∷ zs)
      → (h : Heap K V) × (t : Ptr) × (put dec fresh k w c ≡ some (moved c p h t))
        × IsCache dec (moved c p h t) ((p, k, w) ∷ ws ++ zs)
  put-update c fresh ws p k v w zs e absent s =
      let (h, runs, stored) = set_value-IsCache dec p k v w zs c ws s in
      let mv = move_to_front-Moved dec (record c { heap = h }) ws p k w zs absent stored in
      (
        mv.heap,
        mv.tail,
        put-update_branch dec c k fresh p w e ∙ >>=-some _ _ _ _ runs mv.runs,
        mv.valid,
      )
