-- ===== src/Lru/Refinement/Resize.antt =====
-- `evict_to`, `resize` and the destructor of include/client/governed_cache.h.
use memory_aware_governor.Base.{
  ℕ, zero, suc, ◌+◌, ◌≤◌, ◌<◌, ◌≡◌, ◌∙◌, sym, refl, ap, none, some, [], ◌∷◌, ◌++◌, true, false,
  ◌&&◌, arith, length, length-append, inl, inr, Bool-cases, >>=-some, if_true, if_false, ltb, u64,
}
use memory_aware_governor.Lru.{Cache, evict_loop, evict_to, resize, destroy_from, destroy}
use memory_aware_governor.Lru.Calls.{IsCache-stats}
use memory_aware_governor.Lru.Evict.{evicted, evict_lru-Evicted}
use memory_aware_governor.Lru.Invariant.{IsCache}
use memory_aware_governor.Lru.Refinement.{Refines}
use memory_aware_governor.Lru.Segment.{
  Ptr, null, node, Cells, Heap, write, has, first_or, Seg, Apart, frame, snoc-cases,
}
use memory_aware_governor.Lru.Spec.{
  Contents, entries_of, length-entries_of, entries_of-append, take, take_all, take-append,
  evict_to_spec, resize_spec,
}
use memory_aware_governor.Lru.Steps.{not_null, load_lem, delete_node_lem, write-none}

room : (n s l : ℕ) → (ltb n s && ltb 0 s) ≡ true → s ≡ l + 1 → n ≤ l
room n s l go e = ground arith

module _ {K V : Type 0} (dec : Discrete K) where
  -- A cache that has lost its last cells down to `n`.
  record Shrunk (n : ℕ) (c c1 : Cache K V) (xs : Cells K V) : Type 0 where
    cells : Cells K V
    valid : IsCache dec c1 cells
    entries : entries_of cells ≡ take n (entries_of xs)
    same_capacity : c1.capacity ≡ c.capacity
    same_hits : c1.hits ≡ c.hits
    same_misses : c1.misses ≡ c.misses

  Shrunk-enough :
      (n : ℕ) (c : Cache K V) (xs : Cells K V) → IsCache dec c xs → length xs ≤ n → Shrunk n c c xs
  Shrunk-enough n c xs s h = record {
    cells = xs;
    valid = s;
    entries = sym (take_all n (entries_of xs) (omega (arith, length-entries_of xs)));
    same_capacity = refl;
    same_hits = refl;
    same_misses = refl;
  }

  evict_loop-Shrunk :
      (fuel n : ℕ) (c : Cache K V) (xs : Cells K V)
      → IsCache dec c xs
      → c.size < fuel
      → c.size < u64
      → (c1 : Cache K V) × (evict_loop dec fuel n c ≡ some c1) × Shrunk n c c1 xs
  unfolding evict_loop
  evict_loop-Shrunk zero n c xs s h small = absurd (omega arith)
  evict_loop-Shrunk (suc fuel) n c xs s h small = elim (Bool-cases (ltb n c.size && ltb 0 c.size)) [
    | inr stop ↦ (c, if_false _ _ _ _ stop refl, Shrunk-enough n c xs s (ground (arith, s.count)))
    | inl go ↦ elim (snoc-cases xs) [
      | inl e ↦ absurd (ground (arith, s.count, ap length e))
      | inr (ws, x, e) ↦
          let valid : IsCache dec c (ws ++ x ∷ []) = rw e at s in
          let ev = evict_lru-Evicted dec c ws x small valid in
          let total = length-append ws (x ∷ []) in
          let count = ev.valid.count in
          let (c1, runs, shrunk) =
            evict_loop-Shrunk fuel n (evicted dec c x.1 ev.head ev.tail ev.heap) ws ev.valid
              (omega (arith, count, valid.count, total))
              (omega (arith, count, valid.count, total)) in
          (
            c1,
            if_true _ _ _ _ go (>>=-some _ _ _ _ ev.runs runs),
            record {
              cells = shrunk.cells;
              valid = shrunk.valid;
              entries =
                  shrunk.entries
                  ∙ sym (
                      ap (take n) (ap entries_of e ∙ entries_of-append ws (x ∷ []))
                      ∙ take-append n (entries_of ws) (entries_of (x ∷ [])) (
                          rw (length-entries_of ws)
                            (room n c.size (length ws) go (omega (arith, valid.count, total)))));
              same_capacity = shrunk.same_capacity;
              same_hits = shrunk.same_hits;
              same_misses = shrunk.same_misses;
            },
          )
    ]
  ]

  -- The loop of evict_to ends, without a fault, with the n most recently used entries, for a size
  -- below 2 to the 64.
  pub evict_to-Refines :
      (n : ℕ) (c : Cache K V) (m : Contents K V)
      → Refines dec c m
      → c.size < u64
      → (c1 : Cache K V) × (evict_to dec n c ≡ some c1) × Refines dec c1 (evict_to_spec n m)
  unfolding evict_to evict_to_spec
  evict_to-Refines n c m r small =
      let (c1, runs, shrunk) =
        evict_loop-Shrunk (c.size + 1) n c r.cells r.valid (omega arith) small in
      (
        c1,
        runs,
        record {
          cells = shrunk.cells;
          valid = shrunk.valid;
          entries = shrunk.entries ∙ ap (take n) r.entries;
          limit = shrunk.same_capacity ∙ r.limit;
          hit_count = shrunk.same_hits ∙ r.hit_count;
          miss_count = shrunk.same_misses ∙ r.miss_count;
        },
      )

  -- resize sets the capacity and drops exactly the least recently used entries that do not fit,
  -- without a fault, for a size below 2 to the 64.
  pub resize-Refines :
      (n : ℕ) (c : Cache K V) (m : Contents K V)
      → Refines dec c m
      → c.size < u64
      → (c1 : Cache K V) × (resize dec n c ≡ some c1) × Refines dec c1 (resize_spec n m)
  unfolding resize evict_to_spec resize_spec
  resize-Refines n c m r small =
      evict_to-Refines n (record c { capacity = n }) (record m { limit = n })
        (record {
          cells = r.cells;
          valid = IsCache-stats dec c n c.hits c.misses r.cells r.valid;
          entries = r.entries;
          limit = refl;
          hit_count = r.hit_count;
          miss_count = r.miss_count;
        })
        small

module _ {K V : Type 0} where
  destroy_from-frees :
      (fuel : ℕ) (c : Cache K V) (p : Ptr) (xs : Cells K V)
      → Seg c.heap p xs null
      → Apart xs
      → length xs < fuel
      → (h : Heap K V) × (destroy_from fuel (first_or null xs) c ≡ some (record c { heap = h }))
        × ((a : Ptr) → (has a xs ≡ false → c.heap a ≡ none) → h a ≡ none)
  unfolding destroy_from
  destroy_from-frees zero c p xs s d h = absurd (omega arith)
  destroy_from-frees (suc fuel) c p [] s d h = (c.heap, refl, λ a out. out refl)
  destroy_from-frees (suc fuel) c p (x ∷ xs) s d h =
      let h1 = write c.heap x.0 none in
      let c1 = record c { heap = h1 } in
      let n = node x.1 x.2 p (first_or null xs) in
      let (h2, runs, freed) =
        destroy_from-frees fuel c1 x.0 xs (frame c.heap x.0 none x.0 xs null d.1 s.1) d.2
          (omega arith) in
      (
        h2,
        if_false _ _ _ _ (not_null x.0 d.0) (
            >>=-some n _ _ _ (load_lem c x.0 x.1 x.2 p (first_or null xs) d.0 s.0) (
              >>=-some c1 _ _ _ (delete_node_lem c x.0 x.1 x.2 p (first_or null xs) d.0 s.0) runs)),
        λ a out. freed a (λ o. write-none c.heap a x.0 (λ ne. out (not_head a ne o))),
      )
    where
      not_head : (a : Ptr) → (a ≡ x.0 → ⊥) → has a xs ≡ false → has a (x ∷ xs) ≡ false
      not_head a ne o = ground arith

  -- The destructor deletes every node of a cache that meets the invariant once: it meets no
  -- fault, and no node is left on the heap.
  pub destroy-frees :
      (dec : Discrete K) (c : Cache K V) (xs : Cells K V)
      → IsCache dec c xs
      → (c1 : Cache K V) × (destroy c ≡ some c1) × ((a : Ptr) → c1.heap a ≡ none)
  unfolding destroy
  destroy-frees dec c xs s =
      let (h, runs, freed) =
        destroy_from-frees (c.size + 1) c null xs s.links s.apart (omega (arith, s.count)) in
      (
        _,
        ap (λ (p : Ptr). destroy_from (c.size + 1) p c) s.at_head ∙ runs,
        λ a. freed a (s.owned a),
      )
