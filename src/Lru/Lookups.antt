-- ===== src/Lru/Lookups.antt =====
-- Every `get` of a sequence of calls is a hit or a miss (include/client/governed_cache.h).
use memory_aware_governor.Base.{
  ℕ, ◌+◌, ◌<◌, ◌≡◌, List, [], ◌∷◌, arith, length, Option-cases, inl, inr, u64,
}
use memory_aware_governor.Lru.Sessions.{Call, get_call, put_call, evict_call, resize_call, run_spec}
use memory_aware_governor.Lru.Spec.{
  Contents, lookup, get_spec, put_spec, evict_to_spec, resize_spec,
}

module _ {K V : Type 0} (dec : Discrete K) where
  -- How many of the calls are `get`.
  abbrev pub gets : List (Call K V) → ℕ
  gets [] = 0
  gets (get_call k ∷ calls) = gets calls + 1
  gets (put_call p k v ∷ calls) = gets calls
  gets (evict_call n ∷ calls) = gets calls
  gets (resize_call n ∷ calls) = gets calls

  abbrev pub looked_up : Contents K V → ℕ
  looked_up m = m.hit_count + m.miss_count

  pub get_counted :
      (k : K) (m : Contents K V)
      → looked_up m + 1 < u64
      → looked_up (get_spec dec k m).1 ≡ looked_up m + 1
  unfolding get_spec
  get_counted k m h = elim (Option-cases (lookup dec k m.entries)) [
    | inl e ↦ rw (e, get_spec) (omega arith)
    | inr (v, e) ↦ rw (e, get_spec) (omega arith)
  ]

  -- Every `get` is a hit or a miss.
  pub gets_counted :
      (calls : List (Call K V)) (m : Contents K V)
      → looked_up m + length calls < u64
      → looked_up (run_spec dec calls m).1 ≡ looked_up m + gets calls
  unfolding run_spec evict_to_spec resize_spec put_spec
  gets_counted [] m h = omega arith
  gets_counted (get_call k ∷ calls) m h =
      let one = get_counted k m (omega arith) in
      let others = gets_counted calls (get_spec dec k m).1 (omega arith) in omega arith
  gets_counted (put_call p k v ∷ calls) m h = gets_counted calls (put_spec dec k v m) (omega arith)
  gets_counted (evict_call n ∷ calls) m h = gets_counted calls (evict_to_spec n m) (omega arith)
  gets_counted (resize_call n ∷ calls) m h = gets_counted calls (resize_spec n m) (omega arith)
