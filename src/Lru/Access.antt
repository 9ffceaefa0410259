-- ===== src/Lru/Access.antt =====
-- `move_to_front` of include/client/governed_cache.h keeps the invariant.

use memory_aware_governor.Base.{
  ◌≡◌, ◌∙◌, sym, refl, ap, false, none, some, [], ◌∷◌, ◌++◌, arith, length, length-append, inl, inr,
  >>=-some, if_true, if_false, ne→==, eq→==,
}
use memory_aware_governor.Lru.{Cache, move_to_front}
use memory_aware_governor.Lru.Front
use memory_aware_governor.Lru.Front.{Detached, front_heap}
use memory_aware_governor.Lru.Invariant.{find, IsCache}
use memory_aware_governor.Lru.Segment.{
  Ptr, null, Cells, Heap, has, first_or, last_or, Seg, Apart, has-append, first_or-append,
  last_or-append, snoc-cases, Apart-remove, not-has-left, ne-first_or,
}
use memory_aware_governor.Lru.Unlink
use memory_aware_governor.Lru.Unlink.{Middle, unlink_heap}
use memory_aware_governor.Lru.Keys.{find-move, KeysApart-move}

module _ {K V : Type 0} where
  -- The order behind `move_to_front`, and the fields that it changes.
  abbrev pub moved : Cache K V → Ptr → Heap K V → Ptr → Cache K V
  moved c a h t = record c { heap = h; head = a; tail = t }

  module _ (c : Cache K V) (us : Cells K V) (b : Ptr × K × V) (a : Ptr) (k : K) (v : V)
      (zs : Cells K V) (m : Middle c us b a k v zs) (d : Apart ((us ++ b ∷ []) ++ (a, k, v) ∷ zs))
      (at_head : c.head ≡ first_or null ((us ++ b ∷ []) ++ (a, k, v) ∷ zs)) where
    abbrev ws : Cells K V
    ws = us ++ b ∷ []

    abbrev unlinked : Cache K V
    unlinked = record c { heap = unlink_heap c us b a k v zs; tail = last_or b.0 zs }

    first-ws : (q : Ptr) (ys : Cells K V) → first_or q (ws ++ ys) ≡ first_or b.0 us
    first-ws q ys = first_or-append q ws ys ∙ first_or-append (first_or q ys) us (b ∷ [])

    Detached-unlinked : Detached unlinked a k v b.0 (first_or null zs) (ws ++ zs)
    Detached-unlinked =
        let (rest, out) = Apart-remove ws (a, k, v) zs d in
        record {
          links = Unlink.Seg-unlink_heap c us b a k v zs m;
          apart = rest;
          fresh = m.not_null_a;
          out = out;
          holds = Unlink.unlink_heap-outside c us b a k v zs a out ∙ m.here;
          at_head = at_head ∙ first-ws null ((a, k, v) ∷ zs) ∙ sym (first-ws null zs);
          at_tail = sym (
              last_or-append null ws zs
              ∙ ap (λ (p : Ptr). last_or p zs) (last_or-append null us (b ∷ [])));
        }

    abbrev pub front : Heap K V
    front = front_heap unlinked a k v b.0 (first_or null zs) (ws ++ zs)

    -- A node that is not the head goes to the front without a fault.
    pub move_to_front-behind : move_to_front a c ≡ some (moved c a front (last_or a (ws ++ zs)))
    unfolding move_to_front
    move_to_front-behind =
        let out = not-has-left ws (a, k, v) zs d in
        if_false _ _ _ _
          (ne→== a c.head
            (λ e. ne-first_or a us b out (e ∙ at_head ∙ first-ws null ((a, k, v) ∷ zs))))
          (>>=-some unlinked _ _ _ (Unlink.unlink_lem c us b a k v zs m) (
            Front.add_to_front_lem unlinked a k v b.0 (first_or null zs) (ws ++ zs)
              Detached-unlinked))

    pub front-outside : (x : Ptr) → has x (ws ++ (a, k, v) ∷ zs) ≡ false → front x ≡ c.heap x
    front-outside x h =
        Front.front_heap-outside unlinked a k v b.0 (first_or null zs) (ws ++ zs) x
          (ground (arith, has-append x ws ((a, k, v) ∷ zs), has-append x ws zs))
        ∙ Unlink.unlink_heap-outside c us b a k v zs x
            (ground (arith, has-append x ws ((a, k, v) ∷ zs), has-append x ws zs))

    pub Seg-front : Seg front null ((a, k, v) ∷ ws ++ zs) null
    Seg-front =
        Front.Seg-front_heap unlinked a k v b.0 (first_or null zs) (ws ++ zs) Detached-unlinked

module _ {K V : Type 0} (dec : Discrete K) where
  -- The cell of a key that is found goes to the front; nothing else changes.
  pub record Moved (c : Cache K V) (a : Ptr) (xs : Cells K V) : Type 0 where
    pub heap : Heap K V
    pub tail : Ptr
    pub runs : move_to_front a c ≡ some (moved c a heap tail)
    pub valid : IsCache dec (moved c a heap tail) xs

  length-move :
      (ws : Cells K V) (x : Ptr × K × V) (zs : Cells K V)
      → length (ws ++ x ∷ zs) ≡ length (x ∷ ws ++ zs)
  length-move ws x zs = omega (arith, length-append ws (x ∷ zs), length-append ws zs)

  move_to_front-head :
      (c : Cache K V) (a : Ptr) (k : K) (v : V) (zs : Cells K V)
      → IsCache dec c ((a, k, v) ∷ zs)
      → Moved c a ((a, k, v) ∷ zs)
  unfolding move_to_front
  move_to_front-head c a k v zs s =
      let same : moved c a c.heap c.tail ≡ c =
        ap (λ (p : Ptr). record c { head = p }) (sym s.at_head) in
      record {
        heap = c.heap;
        tail = c.tail;
        runs = if_true _ _ _ _ (eq→== a c.head (sym s.at_head)) (ap some (sym same));
        valid = rw same s;
      }

  pub move_to_front-Moved :
      (c : Cache K V) (ws : Cells K V) (a : Ptr) (k : K) (v : V) (zs : Cells K V)
      → find dec k ws ≡ none
      → IsCache dec c (ws ++ (a, k, v) ∷ zs)
      → Moved c a ((a, k, v) ∷ ws ++ zs)
  move_to_front-Moved c ws a k v zs none_before s = elim (snoc-cases ws) [
    | inl e ↦ rw e (move_to_front-head c a k v zs (rw e at s))
    | inr (us, b, e) ↦ rw e (behind us b (rw e at none_before) (rw e at s))
  ]
    where
      behind :
          (us : Cells K V) (b : Ptr × K × V)
          → find dec k (us ++ b ∷ []) ≡ none
          → IsCache dec c ((us ++ b ∷ []) ++ (a, k, v) ∷ zs)
          → Moved c a ((a, k, v) ∷ (us ++ b ∷ []) ++ zs)
      behind us b before s =
          let m = Unlink.Middle-split c us b a k v zs s.links s.apart s.at_tail in
          let ys = us ++ b ∷ [] in
          let (rest, out) = Apart-remove ys (a, k, v) zs s.apart in
          record {
            heap = front c us b a k v zs m s.apart s.at_head;
            tail = last_or a (ys ++ zs);
            runs = move_to_front-behind c us b a k v zs m s.apart s.at_head;
            valid = record {
              links = Seg-front c us b a k v zs m s.apart s.at_head;
              apart = (m.not_null_a, out, rest);
              owned = λ x h.
                  let outside : has x (ys ++ (a, k, v) ∷ zs) ≡ false =
                    ground (arith, has-append x ys ((a, k, v) ∷ zs), has-append x ys zs) in
                  front-outside c us b a k v zs m s.apart s.at_head x outside ∙ s.owned x outside;
              at_head = refl;
              at_tail = refl;
              index = λ q. s.index q ∙ find-move dec q ys (a, k, v) zs before;
              keys = KeysApart-move dec ys (a, k, v) zs before s.keys;
              count = s.count ∙ length-move ys (a, k, v) zs;
            };
          }
