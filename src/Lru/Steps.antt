-- ===== src/Lru/Steps.antt =====
-- What the reads and writes of include/client/governed_cache.h through a pointer do.
use memory_aware_governor.Base.{◌≡◌, ◌≢◌, ◌∙◌, Option, none, some, arith, ◌==◌, false}
use native.Mathlib.Decide.{ℕ_discrete}
use memory_aware_governor.Lru.{Cache, load, set_next, set_prev, set_value, delete_node}
use memory_aware_governor.Lru.Segment.{Ptr, null, Node, node, Heap, write}

pub not_null : (a : Ptr) → a ≢ null → (a == null) ≡ false
not_null a ne = ground arith

module _ {K V : Type 0} where
  pub write_self : (h : Heap K V) (a : Ptr) (n : Option (Node K V)) → write h a n a ≡ n
  unfolding write
  write_self h a n = ground arith

  pub write_ne : (h : Heap K V) (a b : Ptr) (n : Option (Node K V)) → a ≢ b → write h b n a ≡ h a
  unfolding write
  write_ne h a b n ne = ground arith

  -- What is not owned before a deletion, or is deleted, is not owned behind it.
  pub write-none : (h : Heap K V) (a b : Ptr) → (a ≢ b → h a ≡ none) → write h b none a ≡ none
  write-none h a b f = elim (ℕ_discrete a b) [
    | yes e ↦ rw e (write_self h b none)
    | no ne ↦ write_ne h a b none ne ∙ f ne
  ]

  module _ (c : Cache K V) (a : Ptr) (k : K) (v : V) (p q : Ptr) where
    pub load_lem : a ≢ null → c.heap a ≡ some (node k v p q) → load c a ≡ some (node k v p q)
    unfolding load
    load_lem ne e = ground arith

    pub set_next_lem :
        (r : Ptr)
        → a ≢ null
        → c.heap a ≡ some (node k v p q)
        → set_next a r c ≡ some (record c { heap = write c.heap a (some (node k v p r)) })
    unfolding set_next
    set_next_lem r ne e = rw (load_lem ne e)

    pub set_prev_lem :
        (r : Ptr)
        → a ≢ null
        → c.heap a ≡ some (node k v p q)
        → set_prev a r c ≡ some (record c { heap = write c.heap a (some (node k v r q)) })
    unfolding set_prev
    set_prev_lem r ne e = rw (load_lem ne e)

    pub set_value_lem :
        (w : V)
        → a ≢ null
        → c.heap a ≡ some (node k v p q)
        → set_value a w c ≡ some (record c { heap = write c.heap a (some (node k w p q)) })
    unfolding set_value
    set_value_lem w ne e = rw (load_lem ne e)

    pub delete_node_lem :
        a ≢ null
        → c.heap a ≡ some (node k v p q)
        → delete_node a c ≡ some (record c { heap = write c.heap a none })
    unfolding delete_node
    delete_node_lem ne e = rw (load_lem ne e)
