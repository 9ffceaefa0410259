-- ===== src/Lru/Insert.antt =====
-- A new node in `put` of include/client/governed_cache.h.
use memory_aware_governor.Base.{
  ◌+◌, ◌%◌, ◌<◌, ◌≡◌, ◌≢◌, ◌∙◌, refl, none, some, ◌∷◌, arith, >>=-some, u64,
}
use memory_aware_governor.Lru.{Cache, map_insert, insert_new}
use memory_aware_governor.Lru.Front
use memory_aware_governor.Lru.Front.{Detached}
use memory_aware_governor.Lru.Invariant.{find, IsCache}
use memory_aware_governor.Lru.Segment.{
  Ptr, null, node, Cells, Heap, write, frame, has-ne, has-tail, not-has_of_none,
}
use memory_aware_governor.Lru.Steps.{write_self, write_ne}

module _ {K V : Type 0} (dec : Discrete K) where
  abbrev pub inserted : Cache K V → K → Ptr → Ptr → Heap K V → Cache K V
  inserted c k a tail h = record c {
    heap = h;
    head = a;
    tail = tail;
    map = map_insert dec k a c.map;
    size = (c.size + 1) % u64;
  }

  -- A new cell stands in front.
  pub record Inserted (c : Cache K V) (a : Ptr) (k : K) (v : V) (xs : Cells K V) : Type 0 where
    pub heap : Heap K V
    pub tail : Ptr
    pub runs : insert_new dec a k v c ≡ some (inserted c k a tail heap)
    pub valid : IsCache dec (inserted c k a tail heap) ((a, k, v) ∷ xs)

  pub insert_new-Inserted :
      (c : Cache K V) (a : Ptr) (k : K) (v : V) (xs : Cells K V)
      → a ≢ null
      → c.heap a ≡ none
      → find dec k xs ≡ none
      → c.size + 1 < u64
      → IsCache dec c xs
      → Inserted c a k v xs
  unfolding insert_new
  insert_new-Inserted c a k v xs ne unused absent room s =
      let h1 = write c.heap a (some (node k v null null)) in
      let c1 = record c { heap = h1; map = map_insert dec k a c.map } in
      let out = not-has_of_none c.heap a null xs null unused s.links in
      let d : Detached c1 a k v null null xs = record {
        links = frame c.heap a _ null xs null out s.links;
        apart = s.apart;
        fresh = ne;
        out = out;
        holds = write_self c.heap a _;
        at_head = s.at_head;
        at_tail = s.at_tail;
      } in
      record {
        heap = Front.front_heap c1 a k v null null xs;
        tail = _;
        runs = >>=-some _ _ _ _ (Front.add_to_front_lem c1 a k v null null xs d) refl;
        valid = record {
          links = Front.Seg-front_heap c1 a k v null null xs d;
          apart = (ne, out, s.apart);
          owned = λ x o.
              Front.front_heap-outside c1 a k v null null xs x o
              ∙ write_ne c.heap x a _ (has-ne x (a, k, v) xs o)
              ∙ s.owned x (has-tail x (a, k, v) xs o);
          at_head = refl;
          at_tail = refl;
          index = λ q. index q;
          keys = (absent, s.keys);
          count = omega (arith, s.count);
        };
      }
    where
      index : (q : K) → map_insert dec k a c.map q ≡ find dec q ((a, k, v) ∷ xs)
      index q = unfold map_insert in ground (arith, s.index q)
