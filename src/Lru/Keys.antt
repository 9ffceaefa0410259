-- ===== src/Lru/Keys.antt =====
-- Keys of the cells of a cache when one of them goes to the front, or leaves
-- (include/client/governed_cache.h).
use memory_aware_governor.Base.{◌≡◌, ◌≢◌, refl, none, [], ◌∷◌, ◌++◌, arith}
use memory_aware_governor.Lru.Invariant.{find, KeysApart, find-append-none}
use mathlib.Core.Logic.{if_neg}
use memory_aware_governor.Lru.Segment.{Ptr, Cells}

module _ {K V : Type 0} (dec : Discrete K) where
  -- A search does not see that a cell goes before others with other keys.
  pub find-move :
      (q : K) (ws : Cells K V) (x : Ptr × K × V) (zs : Cells K V)
      → find dec x.1 ws ≡ none
      → find dec q (ws ++ x ∷ zs) ≡ find dec q (x ∷ ws ++ zs)
  find-move q [] x zs h = refl
  find-move q (w ∷ ws) x zs h = ground (arith, find-move q ws x zs)

  pub find-remove_none :
      (q : K) (ws : Cells K V) (x : Ptr × K × V) (zs : Cells K V)
      → find dec q (ws ++ x ∷ zs) ≡ none
      → find dec q (ws ++ zs) ≡ none
  find-remove_none q [] x zs h = ground arith
  find-remove_none q (w ∷ ws) x zs h = ground (arith, find-remove_none q ws x zs)

  pub KeysApart-right : (ws zs : Cells K V) → KeysApart dec (ws ++ zs) → KeysApart dec zs
  KeysApart-right [] zs h = h
  KeysApart-right (w ∷ ws) zs h = KeysApart-right ws zs h.1

  pub KeysApart-remove :
      (ws : Cells K V) (x : Ptr × K × V) (zs : Cells K V)
      → KeysApart dec (ws ++ x ∷ zs)
      → KeysApart dec (ws ++ zs)
  KeysApart-remove [] x zs h = h.1
  KeysApart-remove (w ∷ ws) x zs h =
      (find-remove_none w.1 ws x zs h.0, KeysApart-remove ws x zs h.1)

  pub KeysApart-move :
      (ws : Cells K V) (x : Ptr × K × V) (zs : Cells K V)
      → find dec x.1 ws ≡ none
      → KeysApart dec (ws ++ x ∷ zs)
      → KeysApart dec (x ∷ ws ++ zs)
  KeysApart-move ws x zs h d =
      let right = KeysApart-right ws (x ∷ zs) d in
      (ground (arith, find-append-none dec x.1 ws zs h, right.0), KeysApart-remove ws x zs d)

  find_present :
      (ws : Cells K V) (x : Ptr × K × V) (zs : Cells K V) → find dec x.1 (ws ++ x ∷ zs) ≢ none
  find_present [] x zs = ground arith
  find_present (w ∷ ws) x zs = ground (arith, find_present ws x zs)

  -- The key of a cell is none of those before it.
  pub find-before :
      (ws : Cells K V) (x : Ptr × K × V) (zs : Cells K V)
      → KeysApart dec (ws ++ x ∷ zs)
      → find dec x.1 ws ≡ none
  find-before [] x zs h = refl
  find-before (w ∷ ws) x zs h = elim (dec w.1 x.1) [
    | yes e ↦ absurd (find_present ws x zs (rw e at h.0))
    | no ne ↦ rw (if_neg _ ne) (find-before ws x zs h.1)
  ]

  pub find-left_none :
      (q : K) (ws zs : Cells K V) → find dec q (ws ++ zs) ≡ none → find dec q ws ≡ none
  find-left_none q [] zs h = refl
  find-left_none q (w ∷ ws) zs h = ground (arith, find-left_none q ws zs)

  pub KeysApart-left : (ws zs : Cells K V) → KeysApart dec (ws ++ zs) → KeysApart dec ws
  KeysApart-left [] zs h = tt
  KeysApart-left (w ∷ ws) zs h = (find-left_none w.1 ws zs h.0, KeysApart-left ws zs h.1)

  -- A search for another key does not see the last cell.
  pub find-last_ne :
      (q : K) (ws : Cells K V) (x : Ptr × K × V)
      → x.1 ≢ q
      → find dec q (ws ++ x ∷ []) ≡ find dec q ws
  find-last_ne q [] x h = ground arith
  find-last_ne q (w ∷ ws) x h = ground (arith, find-last_ne q ws x)
