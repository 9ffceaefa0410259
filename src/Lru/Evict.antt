-- ===== src/Lru/Evict.antt =====
-- `evict_lru` and the loop of `evict_to` of include/client/governed_cache.h.
use memory_aware_governor.Base.{
  ℕ, ◌+◌, ◌-◌, ◌%◌, ◌<◌, ◌≡◌, ◌≢◌, ◌∙◌, sym, refl, ap, false, none, some, [], ◌∷◌, ◌++◌, arith,
  length, length-append, inl, inr, >>=-some, if_false, Option, u64,
}
use memory_aware_governor.Lru.{Cache, load, delete_node, map_erase, evict_lru}
use memory_aware_governor.Lru.Keys.{find-before, KeysApart-left, find-last_ne}
use memory_aware_governor.Lru.Invariant.{find, KeysApart, IsCache}
use memory_aware_governor.Lru.Segment.{
  Ptr, null, node, Cells, Heap, write, has, last_or, frame, has-append, first_or-append,
  last_or-append, snoc-cases, Seg-left, Seg-right, Seg-append, Apart-left, Apart-right,
  not-has-left, has-ne,
}
use memory_aware_governor.Lru.Steps.{
  write_self, write_ne, not_null, write-none, load_lem, set_next_lem, delete_node_lem,
}
use mathlib.Core.List.{append_assoc}
use mathlib.Core.Logic.{if_pos, if_neg}

module _ {K V : Type 0} where
  out-one : (a : Ptr) (x : Ptr × K × V) → a ≢ x.0 → has a (x ∷ []) ≡ false
  out-one a x ne = ground arith

  ne-last : (a : Ptr) (us : Cells K V) (b : Ptr × K × V) → has a (us ++ b ∷ []) ≡ false → a ≢ b.0
  ne-last a us b h = ground (arith, has-append a us (b ∷ []))

  out-append :
      (a : Ptr) (us : Cells K V) (b x : Ptr × K × V)
      → has a (us ++ b ∷ []) ≡ false
      → a ≢ x.0
      → has a (us ++ b ∷ x ∷ []) ≡ false
  out-append a us b x h ne = ground (arith, has-append a us (b ∷ []), has-append a us (b ∷ x ∷ []))

module _ {K V : Type 0} (dec : Discrete K) where
  -- A cache without its last node.
  abbrev pub evicted : Cache K V → K → Ptr → Ptr → Heap K V → Cache K V
  evicted c k head tail h = record c {
    heap = h;
    head = head;
    tail = tail;
    map = map_erase dec k c.map;
    size = (c.size + u64 - 1) % u64;
  }

  -- `evict_lru` removes exactly the last cell.
  pub record Evicted (c : Cache K V) (x : Ptr × K × V) (ws : Cells K V) : Type 0 where
    pub head : Ptr
    pub tail : Ptr
    pub heap : Heap K V
    pub runs : evict_lru dec c ≡ some (evicted c x.1 head tail heap)
    pub valid : IsCache dec (evicted c x.1 head tail heap) ws

  map_erase-find :
      (m : K → Option Ptr) (q : K) (ws : Cells K V) (x : Ptr × K × V)
      → KeysApart dec (ws ++ x ∷ [])
      → m q ≡ find dec q (ws ++ x ∷ [])
      → map_erase dec x.1 m q ≡ find dec q ws
  unfolding map_erase
  map_erase-find m q ws x keys index = elim (dec x.1 q) [
    | yes e ↦ rw (if_pos _ e) (sym (rw e at (find-before dec ws x [] keys)))
    | no ne ↦ rw (if_neg _ ne) (index ∙ find-last_ne dec q ws x ne)
  ]

  size-evicted :
      (n : ℕ) (ws : Cells K V) (x : Ptr × K × V)
      → n ≡ length (ws ++ x ∷ [])
      → n < u64
      → (n + u64 - 1) % u64 ≡ length ws
  size-evicted n ws x e h = omega (arith, length-append ws (x ∷ []))

  evict_lru-only : (c : Cache K V) (x : Ptr × K × V) → IsCache dec c (x ∷ []) → Evicted c x []
  unfolding evict_lru
  evict_lru-only c x s =
      let h = write c.heap x.0 none in
      let n = node x.1 x.2 null null in
      let c1 = record c { map = map_erase dec x.1 c.map; tail = null; head = null } in
      record {
        head = null;
        tail = null;
        heap = h;
        runs = if_false _ _ _ _ (not_null c.tail (rw s.at_tail s.apart.0)) (
            >>=-some n _ _ _
              (ap (load c) s.at_tail ∙ load_lem c x.0 x.1 x.2 null null s.apart.0 s.links.0)
              (>>=-some (record c1 { heap = h }) _ _ _
                (ap (λ (p : Ptr). delete_node p c1) s.at_tail
                  ∙ delete_node_lem c1 x.0 x.1 x.2 null null s.apart.0 s.links.0)
                refl));
        valid = record {
          links = tt;
          apart = tt;
          owned = λ a _. write-none c.heap a x.0 (λ ne. s.owned a (out-one a x ne));
          at_head = refl;
          at_tail = refl;
          index = λ q. map_erase-find c.map q [] x s.keys (s.index q);
          keys = tt;
          count = size-evicted c.size [] x s.count (omega (arith, s.count));
        };
      }

  evict_lru-more :
      (c : Cache K V) (us : Cells K V) (b x : Ptr × K × V)
      → c.size < u64
      → IsCache dec c (us ++ b ∷ x ∷ [])
      → Evicted c x (us ++ b ∷ [])
  unfolding evict_lru
  evict_lru-more c us b x small s =
      let ys = us ++ b ∷ [] in
      let split : us ++ b ∷ x ∷ [] ≡ ys ++ x ∷ [] = sym (append_assoc us (b ∷ []) (x ∷ [])) in
      let last_x : last_or null (us ++ b ∷ x ∷ []) ≡ x.0 = last_or-append null us (b ∷ x ∷ []) in
      let at_tail = s.at_tail ∙ last_x in
      let back = Seg-right c.heap null us (b ∷ x ∷ []) null s.links in
      let front = Seg-left c.heap null us (b ∷ x ∷ []) null s.links in
      let d = Apart-right us (b ∷ x ∷ []) s.apart in
      let ne = has-ne b.0 x [] d.1 in
      let out_b = not-has-left us b (x ∷ []) s.apart in
      let out_x : has x.0 ys ≡ false = not-has-left ys x [] (rw split at s.apart) in
      let out_us : has x.0 us ≡ false = ground (arith, has-append x.0 us (b ∷ [])) in
      let h1 = write c.heap b.0 (some (node b.1 b.2 (last_or null us) null)) in
      let h = write h1 x.0 none in
      let n = node x.1 x.2 b.0 null in
      let c1 = record c { map = map_erase dec x.1 c.map; tail = b.0 } in
      let kept : h1 x.0 ≡ some n = write_ne c.heap x.0 b.0 _ (λ e. ne (sym e)) ∙ back.1.0 in
      record {
        head = c.head;
        tail = b.0;
        heap = h;
        runs = if_false _ _ _ _ (not_null c.tail (rw at_tail d.2.0)) (
            >>=-some n _ _ _ (ap (load c) at_tail ∙ load_lem c x.0 x.1 x.2 b.0 null d.2.0 back.1.0)
              (>>=-some (record c1 { heap = h1 }) _ _ _
                (if_false _ _ _ _ (not_null b.0 d.0)
                  (set_next_lem c1 b.0 b.1 b.2 (last_or null us) x.0 null d.0 back.0))
                (>>=-some (record c1 { heap = h }) _ _ _
                  (ap (λ (p : Ptr). delete_node p (record c1 { heap = h1 })) at_tail
                    ∙ delete_node_lem (record c1 { heap = h1 }) x.0 x.1 x.2 b.0 null d.2.0 kept)
                  refl)));
        valid = record {
          links =
              Seg-append h null us (b ∷ []) null
                (frame h1 x.0 none null us b.0 out_us (frame c.heap b.0 _ null us b.0 out_b front))
                (write_ne h1 b.0 x.0 none ne ∙ write_self c.heap b.0 _, tt);
          apart = Apart-left ys (x ∷ []) (rw split at s.apart);
          owned = λ a o. write-none h1 a x.0 (λ off_x.
              write_ne c.heap a b.0 _ (ne-last a us b o) ∙ s.owned a (out-append a us b x o off_x));
          at_head =
              s.at_head
              ∙ first_or-append null us (b ∷ x ∷ [])
              ∙ sym (first_or-append null us (b ∷ []));
          at_tail = sym (last_or-append null us (b ∷ []));
          index = λ q. map_erase-find c.map q ys x (rw split at s.keys) (rw split at s.index q);
          keys = KeysApart-left dec ys (x ∷ []) (rw split at s.keys);
          count = size-evicted c.size ys x (rw split at s.count) small;
        };
      }

  -- `evict_lru` meets no fault and removes exactly the least recently used cell.
  pub evict_lru-Evicted :
      (c : Cache K V) (ws : Cells K V) (x : Ptr × K × V)
      → c.size < u64
      → IsCache dec c (ws ++ x ∷ [])
      → Evicted c x ws
  evict_lru-Evicted c ws x small s = elim (snoc-cases ws) [
    | inl e ↦ rw e (evict_lru-only c x (rw e at s))
    | inr (us, b, e) ↦
        rw e (evict_lru-more c us b x small (rw (append_assoc us (b ∷ []) (x ∷ [])) at (rw e at s)))
  ]

  pub evict_lru-nil : (c : Cache K V) → IsCache dec c [] → evict_lru dec c ≡ some c
  unfolding evict_lru
  evict_lru-nil c s = rw s.at_tail
