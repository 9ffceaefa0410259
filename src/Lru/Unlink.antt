-- ===== src/Lru/Unlink.antt =====
-- The first half of `move_to_front` of include/client/governed_cache.h: a node leaves its place.
use memory_aware_governor.Base.{
  ◌≡◌, ◌≢◌, ◌∙◌, sym, refl, false, some, [], ◌∷◌, ◌++◌, arith, >>=-some, ◌==◌, if_true, if_false,
  ap, ne→==, eq→==,
}
use memory_aware_governor.Lru.{Cache, unlink}
use memory_aware_governor.Lru.Segment.{
  Ptr, null, node, Cells, Heap, write, has, first_or, last_or, Seg, Apart, frame, has-append,
  last_or-append, Seg-left, Seg-right, Seg-append, Apart-right, not-has-left, has-ne, has-tail,
  not-has-next,
}
use mathlib.Core.List.{append_assoc}
use memory_aware_governor.Lru.Steps.{
  write_self, write_ne, not_null, load_lem, set_next_lem, set_prev_lem,
}

module _ {K V : Type 0} (c : Cache K V) (us : Cells K V) (b : Ptr × K × V) (a : Ptr) (k : K)
    (v : V) where
  -- A node `a` with the node `b` before it, and the rest of the list on both sides.
  pub record Middle (zs : Cells K V) : Type 0 where
    pub here : c.heap a ≡ some (node k v b.0 (first_or null zs))
    pub before : c.heap b.0 ≡ some (node b.1 b.2 (last_or null us) a)
    pub left : Seg c.heap null us b.0
    pub right : Seg c.heap a zs null
    pub not_null_a : a ≢ null
    pub not_null_b : b.0 ≢ null
    pub ne : a ≢ b.0
    pub out_a : has a zs ≡ false
    pub out_b : has b.0 zs ≡ false
    pub out_us : has b.0 us ≡ false
    pub out_z : has (first_or null zs) us ≡ false
    pub apart : Apart zs
    pub at_tail : c.tail ≡ last_or a zs

  -- The heap behind `unlink`.
  abbrev pub unlink_heap : Cells K V → Heap K V
  unlink_heap [] = write c.heap b.0 (some (node b.1 b.2 (last_or null us) null))
  unlink_heap (z ∷ zs) =
      write (write c.heap b.0 (some (node b.1 b.2 (last_or null us) z.0))) z.0
        (some (node z.1 z.2 b.0 (first_or null zs)))

  last-ne :
      (x : Ptr) (y : Ptr × K × V) (ys : Cells K V) → has x (y ∷ ys) ≡ false → x ≢ last_or y.0 ys
  last-ne x y [] h = ground arith
  last-ne x y (z ∷ ys) h = last-ne x z ys (ground arith)

  -- `unlink` meets no fault; only the heap and the tail change.
  pub unlink_lem :
      (zs : Cells K V)
      → Middle zs
      → unlink a c ≡ some (record c { heap = unlink_heap zs; tail = last_or b.0 zs })
  unfolding unlink
  unlink_lem [] m =
      let c1 = record c { heap = write c.heap b.0 (some (node b.1 b.2 (last_or null us) null)) } in
      let again = load_lem c1 a k v b.0 null m.not_null_a (write_ne c.heap a b.0 _ m.ne ∙ m.here) in
      let n = node k v b.0 null in
      let at_tail = eq→== a c.tail (sym m.at_tail) in
      >>=-some n _ _ _ (load_lem c a k v b.0 null m.not_null_a m.here) (
        >>=-some c1 _ _ _
          (if_false _ _ _ _ (not_null b.0 m.not_null_b)
            (set_next_lem c b.0 b.1 b.2 (last_or null us) a null m.not_null_b m.before))
          (>>=-some n _ _ _ again
            (>>=-some n _ _ _ again (ap some (if_true _ _ _ _ at_tail refl)))))
  unlink_lem (z ∷ zs) m =
      let c1 = record c { heap = write c.heap b.0 (some (node b.1 b.2 (last_or null us) z.0)) } in
      let h2 = write c1.heap z.0 (some (node z.1 z.2 b.0 (first_or null zs))) in
      let c2 = record c { heap = h2 } in
      let n = node k v b.0 z.0 in
      let ne_a = has-ne a z zs m.out_a in
      let ne_b : z.0 ≢ b.0 = λ e. has-ne b.0 z zs m.out_b (sym e) in
      let kept = write_ne c.heap a b.0 _ m.ne ∙ m.here in
      let not_tail : (a == c.tail) ≡ false = rw m.at_tail (ne→== a _ (last-ne a z zs m.out_a)) in
      >>=-some n _ _ _ (load_lem c a k v b.0 z.0 m.not_null_a m.here) (
        >>=-some c1 _ _ _
          (if_false _ _ _ _ (not_null b.0 m.not_null_b)
            (set_next_lem c b.0 b.1 b.2 (last_or null us) a z.0 m.not_null_b m.before))
          (>>=-some n _ _ _ (load_lem c1 a k v b.0 z.0 m.not_null_a kept) (
            >>=-some c2 _ _ _
              (if_false _ _ _ _ (not_null z.0 m.apart.0) (
                set_prev_lem c1 z.0 z.1 z.2 a (first_or null zs) b.0 m.apart.0
                  (write_ne c.heap z.0 b.0 _ ne_b ∙ m.right.0)))
              (>>=-some n _ _ _
                (load_lem c2 a k v b.0 z.0 m.not_null_a (write_ne c1.heap a z.0 _ ne_a ∙ kept))
                (ap some (
                  if_false _ _ _ _ not_tail
                    (ap (λ (t : Ptr). record c2 { tail = t }) m.at_tail)))))))

  Seg-before :
      (h : Heap K V) (q : Ptr)
      → Seg h null us b.0
      → h b.0 ≡ some (node b.1 b.2 (last_or null us) q)
      → Seg h null (us ++ b ∷ []) q
  Seg-before h q s e = Seg-append h null us (b ∷ []) q s (e, tt)

  pub Seg-unlink_heap :
      (zs : Cells K V) → Middle zs → Seg (unlink_heap zs) null ((us ++ b ∷ []) ++ zs) null
  Seg-unlink_heap [] m =
      Seg-append _ null (us ++ b ∷ []) [] null
        (Seg-before _ null (frame c.heap b.0 _ null us b.0 m.out_us m.left) (write_self _ _ _)) tt
  Seg-unlink_heap (z ∷ zs) m =
      let h1 = write c.heap b.0 (some (node b.1 b.2 (last_or null us) z.0)) in
      let ne_b = has-ne b.0 z zs m.out_b in
      Seg-append _ null (us ++ b ∷ []) (z ∷ zs) null
        (Seg-before _ z.0
          (frame h1 z.0 _ null us b.0 m.out_z (frame c.heap b.0 _ null us b.0 m.out_us m.left))
          (write_ne h1 b.0 z.0 _ ne_b ∙ write_self c.heap b.0 _))
        (rw (last_or-append null us (b ∷ [])) (
          write_self h1 z.0 _,
          frame h1 z.0 _ z.0 zs null m.apart.1
              (frame c.heap b.0 _ z.0 zs null (has-tail b.0 z zs m.out_b) m.right.1),
        ))

  pub unlink_heap-outside :
      (zs : Cells K V) (x : Ptr)
      → has x ((us ++ b ∷ []) ++ zs) ≡ false
      → unlink_heap zs x ≡ c.heap x
  unfolding write
  unlink_heap-outside [] x h =
      ground (arith, has-append x (us ++ b ∷ []) [], has-append x us (b ∷ []))
  unlink_heap-outside (z ∷ zs) x h =
      ground (arith, has-append x (us ++ b ∷ []) (z ∷ zs), has-append x us (b ∷ []))

  -- The node and its neighbour in a list of distinct nodes.
  pub Middle-split :
      (zs : Cells K V)
      → Seg c.heap null ((us ++ b ∷ []) ++ (a, k, v) ∷ zs) null
      → Apart ((us ++ b ∷ []) ++ (a, k, v) ∷ zs)
      → c.tail ≡ last_or null ((us ++ b ∷ []) ++ (a, k, v) ∷ zs)
      → Middle zs
  Middle-split zs s d t =
      let xs = us ++ b ∷ [] in
      let back = Seg-right c.heap null xs ((a, k, v) ∷ zs) null s in
      let front = Seg-left c.heap null xs ((a, k, v) ∷ zs) null s in
      let d_a = Apart-right xs ((a, k, v) ∷ zs) d in
      let d_us : Apart (us ++ b ∷ (a, k, v) ∷ zs) = rw (← append_assoc us (b ∷ []) _) d in
      let d_b = Apart-right us (b ∷ (a, k, v) ∷ zs) d_us in
      let last_b : last_or null xs ≡ b.0 = last_or-append null us (b ∷ []) in
      let back_b : Seg c.heap b.0 ((a, k, v) ∷ zs) null = rw last_b at back in
      record {
        here = back_b.0;
        before = (Seg-right c.heap null us (b ∷ []) a front).0;
        left = Seg-left c.heap null us (b ∷ []) a front;
        right = back_b.1;
        not_null_a = d_a.0;
        not_null_b = d_b.0;
        ne = λ e. has-ne b.0 (a, k, v) zs d_b.1 (sym e);
        out_a = d_a.1;
        out_b = has-tail b.0 (a, k, v) zs d_b.1;
        out_us = not-has-left us b ((a, k, v) ∷ zs) d_us;
        out_z = not-has_of_append (first_or null zs) (not-has-next xs (a, k, v) zs d);
        apart = d_a.2;
        at_tail = t ∙ last_or-append null xs ((a, k, v) ∷ zs);
      }
    where
      not-has_of_append : (x : Ptr) → has x (us ++ b ∷ []) ≡ false → has x us ≡ false
      not-has_of_append x h = ground (arith, has-append x us (b ∷ []))
