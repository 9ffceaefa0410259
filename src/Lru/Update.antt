-- ===== src/Lru/Update.antt =====
-- A new value in an old node, for `put` of include/client/governed_cache.h.
use memory_aware_governor.Base.{◌≡◌, ◌∙◌, sym, refl, ◌∷◌, [], ◌++◌, arith, some, length-append}
use memory_aware_governor.Lru.{Cache, set_value}
use memory_aware_governor.Lru.Invariant.{find, KeysApart, IsCache}
use memory_aware_governor.Lru.Segment.{
  Ptr, null, node, Cells, Heap, write, has, first_or, last_or, Apart, frame, first_or-append,
  last_or-append, Seg-left, Seg-right, Seg-append, Apart-right, not-has-left, ne-middle,
}
use memory_aware_governor.Lru.Steps.{write_self, write_ne, set_value_lem}

-- The value of a cell does not matter to the addresses, the keys and the order.
module _ {K V : Type 0} (dec : Discrete K) (a : Ptr) (k : K) (v w : V) (zs : Cells K V) where
  has-value :
      (x : Ptr) (ws : Cells K V) → has x (ws ++ (a, k, v) ∷ zs) ≡ has x (ws ++ (a, k, w) ∷ zs)
  has-value x [] = refl
  has-value x (y ∷ ws) = ground (arith, has-value x ws)

  find-value :
      (q : K) (ws : Cells K V)
      → find dec q (ws ++ (a, k, v) ∷ zs) ≡ find dec q (ws ++ (a, k, w) ∷ zs)
  find-value q [] = refl
  find-value q (y ∷ ws) = ground (arith, find-value q ws)

  Apart-value : (ws : Cells K V) → Apart (ws ++ (a, k, v) ∷ zs) → Apart (ws ++ (a, k, w) ∷ zs)
  Apart-value [] d = d
  Apart-value (y ∷ ws) d = (d.0, sym (has-value y.0 ws) ∙ d.1, Apart-value ws d.2)

  KeysApart-value :
      (ws : Cells K V) → KeysApart dec (ws ++ (a, k, v) ∷ zs) → KeysApart dec (ws ++ (a, k, w) ∷ zs)
  KeysApart-value [] d = d
  KeysApart-value (y ∷ ws) d = (sym (find-value y.1 ws) ∙ d.0, KeysApart-value ws d.1)

  pub set_value-IsCache :
      (c : Cache K V) (ws : Cells K V)
      → IsCache dec c (ws ++ (a, k, v) ∷ zs)
      → (h : Heap K V) × (set_value a w c ≡ some (record c { heap = h }))
        × IsCache dec (record c { heap = h }) (ws ++ (a, k, w) ∷ zs)
  set_value-IsCache c ws s =
      let back = Seg-right c.heap null ws ((a, k, v) ∷ zs) null s.links in
      let front = Seg-left c.heap null ws ((a, k, v) ∷ zs) null s.links in
      let d = Apart-right ws ((a, k, v) ∷ zs) s.apart in
      let n = node k w (last_or null ws) (first_or null zs) in
      let h = write c.heap a (some n) in
      (
        h,
        set_value_lem c a k v (last_or null ws) (first_or null zs) w d.0 back.0,
        record {
          links =
              Seg-append h null ws ((a, k, w) ∷ zs) null
                (frame c.heap a _ null ws a (not-has-left ws (a, k, v) zs s.apart) front)
                (write_self c.heap a _, frame c.heap a _ a zs null d.1 back.1);
          apart = Apart-value ws s.apart;
          owned = λ x o.
              write_ne c.heap x a _ (ne-middle x ws (a, k, w) zs o)
              ∙ s.owned x (has-value x ws ∙ o);
          at_head =
              s.at_head
              ∙ first_or-append null ws ((a, k, v) ∷ zs)
              ∙ sym (first_or-append null ws ((a, k, w) ∷ zs));
          at_tail =
              s.at_tail
              ∙ last_or-append null ws ((a, k, v) ∷ zs)
              ∙ sym (last_or-append null ws ((a, k, w) ∷ zs));
          index = λ q. s.index q ∙ find-value q ws;
          keys = KeysApart-value ws s.keys;
          count = omega (
            arith,
            s.count,
            length-append ws ((a, k, v) ∷ zs),
            length-append ws ((a, k, w) ∷ zs),
          );
        },
      )
