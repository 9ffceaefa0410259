-- ===== src/Lru/Overflow.antt =====
-- How many entries an `LRUCache` (include/client/governed_cache.h) holds, and what it returns.
use memory_aware_governor.Base.{
  ◌+◌, ◌≤◌, ◌<◌, ◌≡◌, ◌≢◌, ◌∙◌, sym, refl, ap, Option, none, some, List, [], ◌∷◌, arith, length,
  Option-cases, inl, inr, ◌==◌, if◌then◌else◌, u64,
}
use memory_aware_governor.Lru.{Cache, get, put}
use memory_aware_governor.Lru.Refinement.{Refines}
use memory_aware_governor.Lru.Refinement.Get.{get-Refines, get_spec-some}
use memory_aware_governor.Lru.Refinement.Put.{put-Refines, length-entries}
use memory_aware_governor.Lru.Segment.{Ptr, null}
use memory_aware_governor.Lru.Sessions.{
  Call, put_call, Allocates, run, run_spec, run-Refines, remove-lt,
}
use memory_aware_governor.Lru.Spec.{
  Contents, drop_last, lookup, get_spec, kept, put_spec, length-drop_last, drop_last-nil,
}
use mathlib.Core.Logic.{if_pos}

module _ {K V : Type 0} where
  abbrev pub puts : List (Ptr × K × V) → List (Call K V)
  puts [] = []
  puts (x ∷ xs) = put_call x.0 x.1 x.2 ∷ puts xs

  length-puts : (xs : List (Ptr × K × V)) → length (puts xs) ≡ length xs
  length-puts [] = refl
  length-puts (x ∷ xs) = omega (arith, length-puts xs)

module _ {K V : Type 0} (dec : Discrete K) where
  put_spec_bound :
      (k : K) (v : V) (m : Contents K V)
      → 0 < m.limit
      → length m.entries ≤ m.limit
      → length (put_spec dec k v m).entries ≤ m.limit
  unfolding put_spec kept
  put_spec_bound k v m pos h = elim (Option-cases (lookup dec k m.entries)) [
    | inl e ↦ rw (e, kept) (ground (arith, length-drop_last m.entries))
    | inr (w, e) ↦ rw (e, kept) (omega (arith, remove-lt dec k m.entries w e))
  ]

  put_spec-limit : (k : K) (v : V) (m : Contents K V) → (put_spec dec k v m).limit ≡ m.limit
  unfolding put_spec
  put_spec-limit k v m = refl

  -- If the capacity is positive and below 2 to the 64 less one and the size is at most the
  -- capacity, put with an unused address that is not null keeps the capacity and a size of at
  -- most the capacity.
  pub put_bound :
      (fresh : Ptr) (k : K) (v : V) (c : Cache K V) (m : Contents K V)
      → Refines dec c m
      → fresh ≢ null
      → c.heap fresh ≡ none
      → c.capacity + 1 < u64
      → 0 < c.capacity
      → c.size ≤ c.capacity
      → (c1 : Cache K V) × (put dec fresh k v c ≡ some c1)
        × (c1.capacity ≡ c.capacity)
        × (c1.size ≤ c.capacity)
  put_bound fresh k v c m r ne unused fits pos le =
      let (c1, e, r1) = put-Refines dec fresh k v c m r ne unused (omega arith) in
      let limit : c1.capacity ≡ c.capacity = r1.limit ∙ put_spec-limit k v m ∙ sym r.limit in
      let before = length-entries dec c m r in
      let after = length-entries dec c1 (put_spec dec k v m) r1 in
      let bound = put_spec_bound k v m (omega (arith, r.limit)) (omega (arith, before, r.limit)) in
      (c1, e, limit, omega (arith, after, r.limit, bound))

  lookup-put_spec :
      (k : K) (v : V) (m : Contents K V) → lookup dec k (put_spec dec k v m).entries ≡ some v
  unfolding put_spec lookup
  lookup-put_spec k v m = if_pos (dec k k) refl _ _

  get_spec-put_spec :
      (k : K) (v : V) (m : Contents K V) → (get_spec dec k (put_spec dec k v m)).0 ≡ some v
  get_spec-put_spec k v m =
      ap (λ (r : Option V × Contents K V). r.0)
        (get_spec-some dec k v (put_spec dec k v m) (lookup-put_spec k v m))

  -- With an unused address that is not null, and a size below 2 to the 64 less one, what put has
  -- stored under a key the next get of the key returns, and neither call meets a fault.
  pub get-put :
      (fresh : Ptr) (k : K) (v : V) (c : Cache K V) (m : Contents K V)
      → Refines dec c m
      → fresh ≢ null
      → c.heap fresh ≡ none
      → c.size + 1 < u64
      → (c1 c2 : Cache K V) × (put dec fresh k v c ≡ some c1) × (get dec k c1 ≡ some (some v, c2))
  get-put fresh k v c m r ne unused small =
      let (c1, e, r1) = put-Refines dec fresh k v c m r ne unused small in
      let (c2, e2, _) = get-Refines dec k c1 (put_spec dec k v m) r1 in
      (c1, c2, e, e2 ∙ ap (λ (o : Option V). some (o, c2)) (get_spec-put_spec k v m))

  -- The keys of `puts` are new, and distinct.
  abbrev pub New : List (Ptr × K × V) → List (K × V) → Type 0
  New [] es = Unit {0}
  New (x ∷ xs) es = (lookup dec x.1 es ≡ none) × New xs ((x.1, x.2) ∷ es)

  kept-zero :
      (k : K) (m : Contents K V)
      → m.limit ≡ 0
      → lookup dec k m.entries ≡ none
      → kept dec k m ≡ m.entries
  unfolding kept
  kept-zero k m zero_limit e = rw (e, kept) (full m.entries)
    where
      full : (es : List (K × V)) → (if length es == m.limit then drop_last es else es) ≡ es
      full [] = ground (arith, drop_last-nil {A = K × V})
      full (x ∷ es) = ground arith

  run_spec-puts :
      (xs : List (Ptr × K × V)) (m : Contents K V)
      → m.limit ≡ 0
      → New xs m.entries
      → (length (run_spec dec (puts xs) m).1.entries ≡ length m.entries + length xs)
        × ((run_spec dec (puts xs) m).0 ≡ [])
        × ((run_spec dec (puts xs) m).1.limit ≡ 0)
  unfolding run_spec put_spec
  run_spec-puts [] m z new = (omega arith, refl, z)
  run_spec-puts (x ∷ xs) m z new =
      let more = kept-zero x.1 m z new.0 in
      let rest = run_spec-puts xs (put_spec dec x.1 x.2 m) z (rw more new.1) in
      (omega (arith, rest.0, ap length more), rest.1, rest.2)

  -- A cache of capacity 0 keeps every new entry: after putting any number of new, distinct keys,
  -- each with an unused address, its size has grown by that number and its capacity is still 0,
  -- as long as the entries stay below 2 to the 64.
  pub zero_capacity_grows :
      (xs : List (Ptr × K × V)) (c : Cache K V) (m : Contents K V)
      → Refines dec c m
      → c.capacity ≡ 0
      → New xs m.entries
      → Allocates dec (puts xs) c
      → length m.entries + length xs < u64
      → (c1 : Cache K V) × (run dec (puts xs) c ≡ some ([], c1))
        × (c1.capacity ≡ 0)
        × (c1.size ≡ c.size + length xs)
  zero_capacity_grows xs c m r z new alloc h =
      let (c1, e, r1) = run-Refines dec (puts xs) c m r alloc (omega (arith, length-puts xs)) in
      let (total, results, limit) = run_spec-puts xs m (sym r.limit ∙ z) new in
      (
        c1,
        e ∙ ap (λ (vs : List (Option V)). some (vs, c1)) results,
        r1.limit ∙ limit,
        omega (
          arith,
          total,
          length-entries dec c m r,
          length-entries dec c1 (run_spec dec (puts xs) m).1 r1,
        ),
      )
