-- ===== src/Lru/Refinement/Put.antt =====
-- `put` of include/client/governed_cache.h implements its specification.
use memory_aware_governor.Base.{
  ◌+◌, ◌≤◌, ◌<◌, ◌≡◌, ◌≢◌, ◌∙◌, sym, refl, ap, none, some, [], ◌∷◌, ◌++◌, arith, length,
  length-append, inl, inr, Option-cases, Bool-cases, if_true, if_false, true, false, >>=-some, ◌==◌,
  if◌then◌else◌, u64,
}
use memory_aware_governor.Lru.{Cache, put, evict_lru}
use memory_aware_governor.Lru.Calls.{put-update, put-new_branch}
use memory_aware_governor.Lru.Invariant.{find, find-Found, IsCache}
use memory_aware_governor.Lru.Segment.{
  Ptr, null, Cells, has, has-append, snoc-cases, not-has_of_none,
}
use memory_aware_governor.Lru.Keys.{find-left_none}
use mathlib.Core.Path.{ap₂}
use memory_aware_governor.Lru.Spec.{
  Contents, entries_of, length-entries_of, entries_of-append, drop_last, lookup, remove, kept,
  put_spec, lookup-none, lookup-split, remove-split, drop_last-append, drop_last-nil,
}
use memory_aware_governor.Lru.Refinement.{Refines}
use memory_aware_governor.Lru.Insert.{insert_new-Inserted}
use memory_aware_governor.Lru.Evict.{evict_lru-Evicted, evict_lru-nil}

module _ {K V : Type 0} (dec : Discrete K) where
  kept-some :
      (k : K) (v : V) (m : Contents K V)
      → lookup dec k m.entries ≡ some v
      → kept dec k m ≡ remove dec k m.entries
  unfolding kept
  kept-some k v m e = rw (e, kept)

  kept-none :
      (k : K) (m : Contents K V)
      → lookup dec k m.entries ≡ none
      → kept dec k m ≡ (if length m.entries == m.limit then drop_last m.entries else m.entries)
  unfolding kept
  kept-none k m e = rw (e, kept)

  -- What `put` does to a cache that stands for `m`.
  abbrev pub Stored : Ptr → K → V → Cache K V → Contents K V → Type 0
  Stored fresh k v c m =
      (c1 : Cache K V) × (put dec fresh k v c ≡ some c1) × Refines dec c1 (put_spec dec k v m)

  put-old :
      (fresh p : Ptr) (k : K) (v : V) (c : Cache K V) (m : Contents K V) (r : Refines dec c m)
      → find dec k r.cells ≡ some p
      → Stored fresh k v c m
  unfolding put_spec
  put-old fresh p k v c m r found =
      let f = find-Found dec k p r.cells found in
      let e =
        ap (lookup dec k) (sym r.entries ∙ ap entries_of f.splits)
        ∙ lookup-split dec k f.before p f.value f.after f.absent in
      let rest =
        ap (remove dec k) (sym r.entries ∙ ap entries_of f.splits)
        ∙ remove-split dec k f.before p f.value f.after f.absent in
      let (h, t, runs, valid) =
        put-update dec c fresh f.before p k f.value v f.after (r.valid.index k ∙ found) f.absent
          (rw f.splits at r.valid) in
      (
        _,
        runs,
        record {
          cells = (p, k, v) ∷ f.before ++ f.after;
          valid = valid;
          entries = ap (◌∷◌ (k, v)) (sym (kept-some k f.value m e ∙ rest));
          limit = r.limit;
          hit_count = r.hit_count;
          miss_count = r.miss_count;
        },
      )

  -- The cache behind the test for room.
  record MadeRoom (k : K) (c c1 : Cache K V) (m : Contents K V) : Type 0 where
    cells : Cells K V
    runs : (if c.size == c.capacity then evict_lru dec c else some c) ≡ some c1
    valid : IsCache dec c1 cells
    absent : find dec k cells ≡ none
    entries : entries_of cells ≡ kept dec k m
    smaller : c1.size ≤ c.size
    same_capacity : c1.capacity ≡ c.capacity
    same_hits : c1.hits ≡ c.hits
    same_misses : c1.misses ≡ c.misses
    owned_less : (a : Ptr) → c.heap a ≡ none → c1.heap a ≡ none

  pub length-entries :
      (c : Cache K V) (m : Contents K V) (r : Refines dec c m) → length m.entries ≡ c.size
  length-entries c m r = ap length (sym r.entries) ∙ length-entries_of r.cells ∙ sym r.valid.count

  same-test :
      (c : Cache K V) (m : Contents K V) (r : Refines dec c m)
      → (length m.entries == m.limit) ≡ (c.size == c.capacity)
  same-test c m r = ap₂ ◌==◌ (length-entries c m r) (sym r.limit)

  make_room-enough :
      (k : K) (c : Cache K V) (m : Contents K V) (r : Refines dec c m)
      → find dec k r.cells ≡ none
      → (c.size == c.capacity) ≡ false
      → MadeRoom k c c m
  make_room-enough k c m r absent test =
      let e = ap (lookup dec k) (sym r.entries) ∙ lookup-none dec k r.cells absent in
      record {
        cells = r.cells;
        runs = if_false _ _ _ _ test refl;
        valid = r.valid;
        absent = absent;
        entries =
            r.entries ∙ sym (kept-none k m e ∙ if_false _ _ _ _ (same-test c m r ∙ test) refl);
        smaller = omega arith;
        same_capacity = refl;
        same_hits = refl;
        same_misses = refl;
        owned_less = λ a h. h;
      }

  make_room-nil :
      (k : K) (c : Cache K V) (m : Contents K V) (r : Refines dec c m)
      → (c.size == c.capacity) ≡ true
      → r.cells ≡ []
      → MadeRoom k c c m
  make_room-nil k c m r test e =
      let no_entries : m.entries ≡ [] = sym r.entries ∙ ap entries_of e in
      let none_found : lookup dec k m.entries ≡ none =
        ap (lookup dec k) no_entries ∙ lookup-none dec k [] refl in
      record {
        cells = [];
        runs = if_true _ _ _ _ test (evict_lru-nil dec c (rw e at r.valid));
        valid = rw e at r.valid;
        absent = refl;
        entries = sym (
            kept-none k m none_found
            ∙ if_true _ _ _ _ (same-test c m r ∙ test) (ap drop_last no_entries ∙ drop_last-nil));
        smaller = omega arith;
        same_capacity = refl;
        same_hits = refl;
        same_misses = refl;
        owned_less = λ a h. h;
      }

  make_room-evict :
      (k : K) (c : Cache K V) (m : Contents K V) (r : Refines dec c m)
      → find dec k r.cells ≡ none
      → c.size < u64
      → (c.size == c.capacity) ≡ true
      → (ws : Cells K V) (x : Ptr × K × V) → r.cells ≡ ws ++ x ∷ []
      → (c1 : Cache K V) × MadeRoom k c c1 m
  make_room-evict k c m r absent small test ws x e =
      let valid : IsCache dec c (ws ++ x ∷ []) = rw e at r.valid in
      let ev = evict_lru-Evicted dec c ws x small valid in
      let missing = ap (lookup dec k) (sym r.entries) ∙ lookup-none dec k r.cells absent in
      (
        _,
        record {
          cells = ws;
          runs = if_true _ _ _ _ test ev.runs;
          valid = ev.valid;
          absent = find-left_none dec k ws (x ∷ []) (rw e at absent);
          entries = sym (
              kept-none k m missing
              ∙ if_true _ _ _ _ (same-test c m r ∙ test) (
                  ap drop_last (sym r.entries ∙ ap entries_of e ∙ entries_of-append ws (x ∷ []))
                  ∙ drop_last-append (entries_of ws) (x.1, x.2)));
          smaller = omega (arith, ev.valid.count, valid.count, length-append ws (x ∷ []));
          same_capacity = refl;
          same_hits = refl;
          same_misses = refl;
          owned_less = λ a h.
              ev.valid.owned a
                (has-left a ws x (not-has_of_none c.heap a null (ws ++ x ∷ []) null h valid.links));
        },
      )
    where
      has-left :
          (a : Ptr) (ws : Cells K V) (x : Ptr × K × V)
          → has a (ws ++ x ∷ []) ≡ false
          → has a ws ≡ false
      has-left a ws x h = ground (arith, has-append a ws (x ∷ []))

  make_room :
      (k : K) (c : Cache K V) (m : Contents K V) (r : Refines dec c m)
      → find dec k r.cells ≡ none
      → c.size < u64
      → (c1 : Cache K V) × MadeRoom k c c1 m
  make_room k c m r absent small = elim (Bool-cases (c.size == c.capacity)) [
    | inr test ↦ (c, make_room-enough k c m r absent test)
    | inl test ↦ elim (snoc-cases r.cells) [
      | inl e ↦ (c, make_room-nil k c m r test e)
      | inr (ws, x, e) ↦ make_room-evict k c m r absent small test ws x e
    ]
  ]

  put-new :
      (fresh : Ptr) (k : K) (v : V) (c : Cache K V) (m : Contents K V) (r : Refines dec c m)
      → find dec k r.cells ≡ none
      → fresh ≢ null
      → c.heap fresh ≡ none
      → c.size + 1 < u64
      → Stored fresh k v c m
  unfolding put_spec
  put-new fresh k v c m r absent ne unused small =
      let (c1, room) = make_room k c m r absent (omega arith) in
      let ins =
        insert_new-Inserted dec c1 fresh k v room.cells ne (room.owned_less fresh unused)
          room.absent (omega (arith, room.smaller)) room.valid in
      (
        _,
        put-new_branch dec c k fresh v (r.valid.index k ∙ absent)
            ∙ >>=-some _ _ _ _ room.runs ins.runs,
        record {
          cells = (fresh, k, v) ∷ room.cells;
          valid = ins.valid;
          entries = ap (◌∷◌ (k, v)) room.entries;
          limit = room.same_capacity ∙ r.limit;
          hit_count = room.same_hits ∙ r.hit_count;
          miss_count = room.same_misses ∙ r.miss_count;
        },
      )

  -- With an unused address that is not null, and a size below 2 to the 64 less one, put meets no
  -- fault and the new cache stands for the contents of the specification: the key in front, and
  -- the least recently used entry gone if the key is new and the size is the capacity.
  pub put-Refines :
      (fresh : Ptr) (k : K) (v : V) (c : Cache K V) (m : Contents K V)
      → Refines dec c m
      → fresh ≢ null
      → c.heap fresh ≡ none
      → c.size + 1 < u64
      → (c1 : Cache K V) × (put dec fresh k v c ≡ some c1) × Refines dec c1 (put_spec dec k v m)
  put-Refines fresh k v c m r ne unused small = elim (Option-cases (find dec k r.cells)) [
    | inl absent ↦ put-new fresh k v c m r absent ne unused small
    | inr (p, found) ↦ put-old fresh p k v c m r found
  ]
