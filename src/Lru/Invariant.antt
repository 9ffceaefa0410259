-- ===== src/Lru/Invariant.antt =====
-- The invariant of `LRUCache` (include/client/governed_cache.h): which nodes a cache stands for.
use memory_aware_governor.Base.{◌≡◌, refl, false, Option, none, some, [], ◌∷◌, ◌++◌, arith, length}
use memory_aware_governor.Lru.{Cache}
use memory_aware_governor.Lru.Segment.{Ptr, null, Cells, has, first_or, last_or, Seg, Apart}
use mathlib.Core.Logic.{ite}

module _ {K V : Type 0} (dec : Discrete K) where
  -- The address of the first cell with a key.
  abbrev pub find : K → Cells K V → Option Ptr
  find k [] = none
  find k (x ∷ xs) = ite (dec x.1 k) (some x.0) (find k xs)

  -- No key twice.
  abbrev pub KeysApart : Cells K V → Type 0
  KeysApart [] = Unit {0}
  KeysApart (x ∷ xs) = (find x.1 xs ≡ none) × KeysApart xs

  -- The cache `c` stands for the cells `xs`, most recently used first: the list is linked both
  -- ways from `head_` to `tail_`, the map finds exactly the keys of its nodes, `size_` counts them,
  -- and the cache owns no other node.
  pub record IsCache (c : Cache K V) (xs : Cells K V) : Type 0 where
    pub links : Seg c.heap null xs null
    pub apart : Apart xs
    pub owned : (a : Ptr) → has a xs ≡ false → c.heap a ≡ none
    pub at_head : c.head ≡ first_or null xs
    pub at_tail : c.tail ≡ last_or null xs
    pub index : (k : K) → c.map k ≡ find k xs
    pub keys : KeysApart xs
    pub count : c.size ≡ length xs

  pub find-append-none :
      (k : K) (xs ys : Cells K V) → find k xs ≡ none → find k (xs ++ ys) ≡ find k ys
  find-append-none k [] ys h = refl
  find-append-none k (x ∷ xs) ys h = ground (arith, find-append-none k xs ys)

  pub find-append-some :
      (k : K) (p : Ptr) (xs ys : Cells K V) → find k xs ≡ some p → find k (xs ++ ys) ≡ some p
  find-append-some k p [] ys h = ground arith
  find-append-some k p (x ∷ xs) ys h = ground (arith, find-append-some k p xs ys)

  -- A cell that is found splits the list at its first occurrence.
  pub record Found (k : K) (p : Ptr) (xs : Cells K V) : Type 0 where
    pub before : Cells K V
    pub value : V
    pub after : Cells K V
    pub splits : xs ≡ before ++ (p, k, value) ∷ after
    pub absent : find k before ≡ none

  pub find-Found : (k : K) (p : Ptr) (xs : Cells K V) → find k xs ≡ some p → Found k p xs
  find-Found k p [] h = ground arith
  find-Found k p (x ∷ xs) h = elim (dec x.1 k) [
    | yes e ↦ record { before = []; value = x.2; after = xs; splits = ground arith; absent = refl }
    | no ne ↦
        let f = find-Found k p xs (ground arith) in
        record {
          before = x ∷ f.before;
          value = f.value;
          after = f.after;
          splits = ground (arith, f.splits);
          absent = ground (arith, f.absent);
        }
  ]
