-- ===== src/Lru/Sessions.antt =====
-- Sequences of calls of `LRUCache` (include/client/governed_cache.h).
use memory_aware_governor.Base.{
  ℕ, zero, suc, ◌+◌, ◌≤◌, ◌<◌, ◌≡◌, ◌≢◌, refl, Option, none, some, List, [], ◌∷◌, arith, length,
  Option-cases, inl, inr, >>=-some, ◌>>=◌, u64,
}
use memory_aware_governor.Lru.{Cache, get, put, evict_to, resize}
use memory_aware_governor.Lru.Refinement.{Refines}
use memory_aware_governor.Lru.Refinement.Get.{get-Refines}
use memory_aware_governor.Lru.Refinement.Put.{put-Refines, length-entries}
use memory_aware_governor.Lru.Refinement.Resize.{evict_to-Refines, resize-Refines}
use memory_aware_governor.Lru.Segment.{Ptr, null}
use memory_aware_governor.Lru.Spec.{
  Contents, take, lookup, remove, get_spec, kept, put_spec, evict_to_spec, resize_spec,
  length-drop_last,
}

-- A call. `put` carries the address that `new` returns, in case it is called.
pub data Call (K V : Type 0) : Type 0 where
  get_call : K → Call K V
  put_call : Ptr → K → V → Call K V
  evict_call : ℕ → Call K V
  resize_call : ℕ → Call K V

module _ {A : Type 0} where
  abbrev pub After : Option A → (A → Type 0) → Type 0
  After none P = Unit {0}
  After (some a) P = P a

  pub take-le : (n : ℕ) (xs : List A) → length (take n xs) ≤ length xs
  unfolding take
  take-le zero xs = omega arith
  take-le (suc n) [] = omega arith
  take-le (suc n) (x ∷ xs) = omega (arith, take-le n xs)

module _ {K V : Type 0} (dec : Discrete K) where
  -- The values that the calls of `get` return, and the cache at the end.
  unfoldable pub run : List (Call K V) → Cache K V → Option (List (Option V) × Cache K V)
  run [] c = some ([], c)
  run (get_call k ∷ calls) c = do (v, c1) ← get dec k c; (vs, c2) ← run calls c1; some (v ∷ vs, c2)
  run (put_call p k v ∷ calls) c = do c1 ← put dec p k v c; run calls c1
  run (evict_call n ∷ calls) c = do c1 ← evict_to dec n c; run calls c1
  run (resize_call n ∷ calls) c = do c1 ← resize dec n c; run calls c1

  unfoldable pub run_spec : List (Call K V) → Contents K V → List (Option V) × Contents K V
  run_spec [] m = ([], m)
  run_spec (get_call k ∷ calls) m =
      let rest = run_spec calls (get_spec dec k m).1 in ((get_spec dec k m).0 ∷ rest.0, rest.1)
  run_spec (put_call p k v ∷ calls) m = run_spec calls (put_spec dec k v m)
  run_spec (evict_call n ∷ calls) m = run_spec calls (evict_to_spec n m)
  run_spec (resize_call n ∷ calls) m = run_spec calls (resize_spec n m)

  -- Each `put` of the run is given an address that is not null and not in use.
  abbrev pub Allocates : List (Call K V) → Cache K V → Type 0
  Allocates [] c = Unit {0}
  Allocates (get_call k ∷ calls) c = After (get dec k c) (λ r. Allocates calls r.1)
  Allocates (put_call p k v ∷ calls) c =
      (p ≢ null) × (c.heap p ≡ none) × After (put dec p k v c) (Allocates calls)
  Allocates (evict_call n ∷ calls) c = After (evict_to dec n c) (Allocates calls)
  Allocates (resize_call n ∷ calls) c = After (resize dec n c) (Allocates calls)

  remove-le : (k : K) (es : List (K × V)) → length (remove dec k es) ≤ length es
  unfolding remove
  remove-le k [] = omega arith
  remove-le k (e ∷ es) = ground (arith, remove-le k es)

  pub remove-lt :
      (k : K) (es : List (K × V)) (v : V)
      → lookup dec k es ≡ some v
      → length (remove dec k es) + 1 ≤ length es
  unfolding remove lookup
  remove-lt k [] v h = cc
  remove-lt k (e ∷ es) v h = ground (arith, remove-lt k es v)

  pub get_spec-le :
      (k : K) (m : Contents K V) → length (get_spec dec k m).1.entries ≤ length m.entries
  unfolding get_spec
  get_spec-le k m = elim (Option-cases (lookup dec k m.entries)) [
    | inl e ↦ rw (e, get_spec) (omega arith)
    | inr (v, e) ↦ rw (e, get_spec) (omega (arith, remove-lt k m.entries v e))
  ]

  pub put_spec-le :
      (k : K) (v : V) (m : Contents K V)
      → length (put_spec dec k v m).entries ≤ length m.entries + 1
  unfolding put_spec kept
  put_spec-le k v m = elim (Option-cases (lookup dec k m.entries)) [
    | inl e ↦ rw (e, kept) (ground (arith, length-drop_last m.entries))
    | inr (w, e) ↦ rw (e, kept) (omega (arith, remove-le k m.entries))
  ]

  -- What a run of the code does to a cache that stands for `m`.
  abbrev pub Implements : List (Call K V) → Cache K V → Contents K V → Type 0
  Implements calls c m =
      (c1 : Cache K V) × (run calls c ≡ some ((run_spec calls m).0, c1))
      × Refines dec c1 (run_spec calls m).1

  -- From a cache that stands for some contents, every sequence of get, put, evict_to and resize
  -- for which new gives each put an unused address runs without a fault (no null or dangling
  -- pointer, no second delete), and returns the results, and ends with a cache for the contents,
  -- of the list specification, as long as entries and calls together stay below 2 to the 64.
  pub run-Refines :
      (calls : List (Call K V)) (c : Cache K V) (m : Contents K V)
      → Refines dec c m
      → Allocates calls c
      → length m.entries + length calls < u64
      → Implements calls c m
  unfolding run run_spec evict_to_spec resize_spec
  run-Refines [] c m r new h = (c, refl, r)
  run-Refines (get_call k ∷ calls) c m r new h =
      let (c1, e, r1) = get-Refines dec k c m r in
      let (c2, e2, r2) =
        run-Refines calls c1 (get_spec dec k m).1 r1 (rw e at new)
          (omega (arith, get_spec-le k m)) in
      (c2, >>=-some _ _ _ _ e (>>=-some _ _ _ _ e2 refl), r2)
  run-Refines (put_call p k v ∷ calls) c m r new h =
      let (c1, e, r1) =
        put-Refines dec p k v c m r new.0 new.1 (omega (arith, length-entries dec c m r)) in
      let (c2, e2, r2) =
        run-Refines calls c1 (put_spec dec k v m) r1 (rw e at new.2)
          (omega (arith, put_spec-le k v m)) in
      (c2, >>=-some _ _ _ _ e e2, r2)
  run-Refines (evict_call n ∷ calls) c m r new h =
      let (c1, e, r1) = evict_to-Refines dec n c m r (omega (arith, length-entries dec c m r)) in
      let (c2, e2, r2) =
        run-Refines calls c1 (evict_to_spec n m) r1 (rw e at new)
          (omega (arith, take-le n m.entries)) in
      (c2, >>=-some _ _ _ _ e e2, r2)
  run-Refines (resize_call n ∷ calls) c m r new h =
      let (c1, e, r1) = resize-Refines dec n c m r (omega (arith, length-entries dec c m r)) in
      let (c2, e2, r2) =
        run-Refines calls c1 (resize_spec n m) r1 (rw e at new)
          (omega (arith, take-le n m.entries)) in
      (c2, >>=-some _ _ _ _ e e2, r2)
