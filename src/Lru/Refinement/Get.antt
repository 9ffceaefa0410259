-- ===== src/Lru/Refinement/Get.antt =====
-- `get` of include/client/governed_cache.h implements its specification.
use memory_aware_governor.Base.{
  ◌+◌, ◌%◌, ◌≡◌, ◌∙◌, sym, ap, none, some, ◌∷◌, ◌++◌, arith, inl, inr, Option-cases, u64,
}
use memory_aware_governor.Lru.{Cache, get}
use memory_aware_governor.Lru.Calls.{IsCache-stats, get-miss, get-hit}
use memory_aware_governor.Lru.Invariant.{find, find-Found, Found}
use memory_aware_governor.Lru.Segment.{Ptr}
use memory_aware_governor.Lru.Spec.{
  Contents, entries_of, lookup, remove, get_spec, lookup-none, lookup-split, remove-split,
}
use memory_aware_governor.Lru.Refinement.{Refines}

module _ {K V : Type 0} (dec : Discrete K) where
  get_spec-none :
      (k : K) (m : Contents K V)
      → lookup dec k m.entries ≡ none
      → get_spec dec k m ≡ (none, record m { miss_count = (m.miss_count + 1) % u64 })
  unfolding get_spec
  get_spec-none k m e = rw (e, get_spec)

  pub get_spec-some :
      (k : K) (v : V) (m : Contents K V)
      → lookup dec k m.entries ≡ some v
      → get_spec dec k m ≡ (
        some v,
        record m { entries = (k, v) ∷ remove dec k m.entries; hit_count = (m.hit_count + 1) % u64 },
      )
  unfolding get_spec
  get_spec-some k v m e = rw (e, get_spec)

  -- get meets no fault; its result and the new cache are those of the specification: the value
  -- and the key in front on a hit, nothing but the counter on a miss.
  pub get-Refines :
      (k : K) (c : Cache K V) (m : Contents K V)
      → Refines dec c m
      → (c1 : Cache K V) × (get dec k c ≡ some ((get_spec dec k m).0, c1))
        × Refines dec c1 (get_spec dec k m).1
  get-Refines k c m r = elim (Option-cases (find dec k r.cells)) [
    | inl absent ↦
        let e =
          get_spec-none k m
            (ap (lookup dec k) (sym r.entries) ∙ lookup-none dec k r.cells absent) in
        rw e (
          _,
          get-miss dec c k (r.valid.index k ∙ absent),
          record {
            cells = r.cells;
            valid = IsCache-stats dec c c.capacity c.hits ((c.misses + 1) % u64) r.cells r.valid;
            entries = r.entries;
            limit = r.limit;
            hit_count = r.hit_count;
            miss_count = omega (arith, r.miss_count);
          },
        )
    | inr (p, found) ↦ hit p found (find-Found dec k p r.cells found)
  ]
    where
      hit :
          (p : Ptr)
          → find dec k r.cells ≡ some p
          → Found dec k p r.cells
          → (c1 : Cache K V) × (get dec k c ≡ some ((get_spec dec k m).0, c1))
            × Refines dec c1 (get_spec dec k m).1
      hit p found f =
          let e =
            ap (lookup dec k) (sym r.entries ∙ ap entries_of f.splits)
            ∙ lookup-split dec k f.before p f.value f.after f.absent in
          let rest =
            ap (remove dec k) (sym r.entries ∙ ap entries_of f.splits)
            ∙ remove-split dec k f.before p f.value f.after f.absent in
          let (h, t, runs, valid) =
            get-hit dec c f.before p k f.value f.after (r.valid.index k ∙ found) f.absent
              (rw f.splits at r.valid) in
          rw (get_spec-some k f.value m e) (
            _,
            runs,
            record {
              cells = (p, k, f.value) ∷ f.before ++ f.after;
              valid = valid;
              entries = ap (◌∷◌ (k, f.value)) (sym rest);
              limit = r.limit;
              hit_count = omega (arith, r.hit_count);
              miss_count = r.miss_count;
            },
          )
