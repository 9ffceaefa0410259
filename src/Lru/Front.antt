-- ===== src/Lru/Front.antt =====
-- `add_to_front` of include/client/governed_cache.h.
use memory_aware_governor.Base.{◌≡◌, ◌≢◌, ◌∙◌, false, some, [], ◌∷◌, arith}
use memory_aware_governor.Lru.{Cache, add_to_front}
use memory_aware_governor.Lru.Steps.{write_self, write_ne, not_null, set_next_lem, set_prev_lem}
use memory_aware_governor.Lru.Segment.{
  Ptr, null, node, Cells, Heap, write, has, first_or, last_or, Seg, Apart, frame, last_or-ne-null,
}

module _ {K V : Type 0} (c : Cache K V) (a : Ptr) (k : K) (v : V) (p q : Ptr) where
  -- What is known of the list before a node is put in front.
  pub record Detached (ys : Cells K V) : Type 0 where
    pub links : Seg c.heap null ys null
    pub apart : Apart ys
    pub fresh : a ≢ null
    pub out : has a ys ≡ false
    pub holds : c.heap a ≡ some (node k v p q)
    pub at_head : c.head ≡ first_or null ys
    pub at_tail : c.tail ≡ last_or null ys

  -- The heap behind `add_to_front`.
  abbrev pub front_heap : Cells K V → Heap K V
  front_heap [] = write (write c.heap a (some (node k v p null))) a (some (node k v null null))
  front_heap (y ∷ ys) =
      write (write (write c.heap a (some (node k v p y.0))) a (some (node k v null y.0))) y.0
        (some (node y.1 y.2 a (first_or null ys)))

  -- `add_to_front` meets no fault; only the heap, the head and the tail change.
  pub add_to_front_lem :
      (ys : Cells K V)
      → Detached ys
      → add_to_front a c ≡ some (record c { heap = front_heap ys; head = a; tail = last_or a ys })
  unfolding add_to_front
  add_to_front_lem [] d = rw (set_next_lem c a k v p q c.head d.fresh d.holds) (
      rw
        (set_prev_lem (record c { heap = write c.heap a (some (node k v p c.head)) }) a k v p c.head
          null d.fresh (write_self _ _ _))
        (rw (d.at_head, d.at_tail)))
  add_to_front_lem (y ∷ ys) d =
      let h1 = write c.heap a (some (node k v p y.0)) in
      let h2 = write h1 a (some (node k v null y.0)) in
      let out : y.0 ≢ a = ground arith in
      rw (set_next_lem c a k v p q c.head d.fresh d.holds) (
        rw
          (set_prev_lem (record c { heap = write c.heap a (some (node k v p c.head)) }) a k v p
            c.head null d.fresh (write_self _ _ _))
          (rw (d.at_head, d.at_tail, not_null y.0 d.apart.0)
            (rw
              (set_prev_lem (record c { head = y.0; tail = last_or y.0 ys; heap = h2 }) y.0 y.1 y.2
                null (first_or null ys) a d.apart.0
                (write_ne h1 y.0 a _ out ∙ write_ne c.heap y.0 a _ out ∙ d.links.0))
              (rw (not_null (last_or y.0 ys) (last_or-ne-null y.0 ys d.apart.0 d.apart.2))))))

  -- The cell stands in front of the others.
  pub Seg-front_heap :
      (ys : Cells K V) → Detached ys → Seg (front_heap ys) null ((a, k, v) ∷ ys) null
  unfolding write
  Seg-front_heap [] d = ground arith
  Seg-front_heap (y ∷ ys) d =
      let h1 = write c.heap a (some (node k v p y.0)) in
      let h2 = write h1 a (some (node k v null y.0)) in
      (
        ground arith,
        (
          ground arith,
          frame h2 y.0 _ y.0 ys null d.apart.1 (
              frame h1 a _ y.0 ys null (ground arith)
                (frame c.heap a _ y.0 ys null (ground arith) d.links.1)),
        ),
      )

  pub front_heap-outside :
      (ys : Cells K V) (b : Ptr) → has b ((a, k, v) ∷ ys) ≡ false → front_heap ys b ≡ c.heap b
  unfolding write
  front_heap-outside [] b h = ground arith
  front_heap-outside (y ∷ ys) b h = ground arith
