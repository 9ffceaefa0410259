-- ===== src/Lru/Segment.antt =====
-- Doubly linked segments of nodes on a heap, for include/client/governed_cache.h.
use memory_aware_governor.Base.{
  ℕ, ◌≡◌, refl, ◌≢◌, Bool, false, ◌||◌, Option, none, some, List, [], ◌∷◌, ◌++◌, arith, ◌==◌,
  if◌then◌else◌, ◌⊎◌, inl, inr,
}

abbrev pub Ptr : Type 0
Ptr = ℕ

abbrev pub null : Ptr
null = 0

-- `struct Node`
pub record Node (K V : Type 0) : Type 0 where
  pub key : K
  pub value : V
  pub prev : Ptr
  pub next : Ptr

-- What a list of nodes stands for: the address, key and value of each node, in order.
abbrev pub Cells : Type 0 → Type 0 → Type 0
Cells K V = List (Ptr × K × V)

abbrev pub Heap : Type 0 → Type 0 → Type 0
Heap K V = Ptr → Option (Node K V)

module _ {K V : Type 0} where
  abbrev pub node : K → V → Ptr → Ptr → Node K V
  node k v p q = record { key = k; value = v; prev = p; next = q }

  unfoldable pub write : Heap K V → Ptr → Option (Node K V) → Heap K V
  write h p n a = if a == p then n else h a

  abbrev pub has : Ptr → Cells K V → Bool
  has a [] = false
  has a (x ∷ xs) = (a == x.0) || has a xs

  -- The address of the first cell, or `q`.
  abbrev pub first_or : Ptr → Cells K V → Ptr
  first_or q [] = q
  first_or q (x ∷ xs) = x.0

  -- The address of the last cell, or `p`.
  abbrev pub last_or : Ptr → Cells K V → Ptr
  last_or p [] = p
  last_or p (x ∷ xs) = last_or x.0 xs

  -- Each cell lies on the heap, with the links to its neighbours; `p` comes before, `q` after.
  abbrev pub Seg : Heap K V → Ptr → Cells K V → Ptr → Type 0
  Seg h p [] q = Unit {0}
  Seg h p (x ∷ xs) q = (h x.0 ≡ some (node x.1 x.2 p (first_or q xs))) × Seg h x.0 xs q

  -- The addresses are distinct, and none is null.
  abbrev pub Apart : Cells K V → Type 0
  Apart [] = Unit {0}
  Apart (x ∷ xs) = (x.0 ≢ null) × (has x.0 xs ≡ false) × Apart xs

  -- A list is empty, or has a last element.
  pub snoc-cases :
      (xs : Cells K V) → (xs ≡ []) ⊎ ((ys : Cells K V) × (x : Ptr × K × V) × (xs ≡ ys ++ x ∷ []))
  snoc-cases [] = inl refl
  snoc-cases (x ∷ xs) = elim (snoc-cases xs) [
    | inl e ↦ inr ([], x, ground arith)
    | inr (ys, y, e) ↦ inr (x ∷ ys, y, ground arith)
  ]

  pub has-append : (a : Ptr) (xs ys : Cells K V) → has a (xs ++ ys) ≡ (has a xs || has a ys)
  has-append a [] ys = refl
  has-append a (x ∷ xs) ys = ground (arith, has-append a xs ys)

  pub first_or-append :
      (q : Ptr) (xs ys : Cells K V) → first_or q (xs ++ ys) ≡ first_or (first_or q ys) xs
  first_or-append q [] ys = refl
  first_or-append q (x ∷ xs) ys = refl

  pub last_or-append :
      (p : Ptr) (xs ys : Cells K V) → last_or p (xs ++ ys) ≡ last_or (last_or p xs) ys
  last_or-append p [] ys = refl
  last_or-append p (x ∷ xs) ys = last_or-append x.0 xs ys

  pub frame :
      (h : Heap K V) (a : Ptr) (n : Option (Node K V)) (p : Ptr) (xs : Cells K V) (q : Ptr)
      → has a xs ≡ false
      → Seg h p xs q
      → Seg (write h a n) p xs q
  unfolding write
  frame h a n p [] q out s = tt
  frame h a n p (x ∷ xs) q out s = (ground arith, frame h a n x.0 xs q (ground arith) s.1)

  pub Seg-left :
      (h : Heap K V) (p : Ptr) (xs ys : Cells K V) (q : Ptr)
      → Seg h p (xs ++ ys) q
      → Seg h p xs (first_or q ys)
  Seg-left h p [] ys q s = tt
  Seg-left h p (x ∷ xs) ys q s =
      (ground (arith, first_or-append q xs ys), Seg-left h x.0 xs ys q s.1)

  pub Seg-right :
      (h : Heap K V) (p : Ptr) (xs ys : Cells K V) (q : Ptr)
      → Seg h p (xs ++ ys) q
      → Seg h (last_or p xs) ys q
  Seg-right h p [] ys q s = s
  Seg-right h p (x ∷ xs) ys q s = Seg-right h x.0 xs ys q s.1

  pub Seg-append :
      (h : Heap K V) (p : Ptr) (xs ys : Cells K V) (q : Ptr)
      → Seg h p xs (first_or q ys)
      → Seg h (last_or p xs) ys q
      → Seg h p (xs ++ ys) q
  Seg-append h p [] ys q s t = t
  Seg-append h p (x ∷ xs) ys q s t =
      (ground (arith, first_or-append q xs ys), Seg-append h x.0 xs ys q s.1 t)

  pub Apart-left : (xs ys : Cells K V) → Apart (xs ++ ys) → Apart xs
  Apart-left [] ys d = tt
  Apart-left (x ∷ xs) ys d = (d.0, ground (arith, has-append x.0 xs ys), Apart-left xs ys d.2)

  pub Apart-right : (xs ys : Cells K V) → Apart (xs ++ ys) → Apart ys
  Apart-right [] ys d = d
  Apart-right (x ∷ xs) ys d = Apart-right xs ys d.2

  -- The first cell of the second part is none of the cells of the first.
  pub not-has-left :
      (xs : Cells K V) (y : Ptr × K × V) (ys : Cells K V)
      → Apart (xs ++ y ∷ ys)
      → has y.0 xs ≡ false
  not-has-left [] y ys d = refl
  not-has-left (x ∷ xs) y ys d =
      ground (arith, not-has-left xs y ys d.2, has-append x.0 xs (y ∷ ys))

  -- Leaving out a cell keeps the others apart.
  pub Apart-remove :
      (xs : Cells K V) (y : Ptr × K × V) (ys : Cells K V)
      → Apart (xs ++ y ∷ ys)
      → Apart (xs ++ ys) × (has y.0 (xs ++ ys) ≡ false)
  Apart-remove [] y ys d = (d.2, d.1)
  Apart-remove (x ∷ xs) y ys d =
      let (rest, out) = Apart-remove xs y ys d.2 in
      (
        (d.0, ground (arith, has-append x.0 xs (y ∷ ys), has-append x.0 xs ys), rest),
        ground (arith, has-append x.0 xs (y ∷ ys)),
      )

  pub last_or-ne-null : (p : Ptr) (xs : Cells K V) → p ≢ null → Apart xs → last_or p xs ≢ null
  last_or-ne-null p [] ne d = ne
  last_or-ne-null p (x ∷ xs) ne d = last_or-ne-null x.0 xs d.0 d.2

  pub has-ne : (x : Ptr) (y : Ptr × K × V) (ys : Cells K V) → has x (y ∷ ys) ≡ false → x ≢ y.0
  has-ne x y ys h = ground arith

  pub has-tail :
      (x : Ptr) (y : Ptr × K × V) (ys : Cells K V) → has x (y ∷ ys) ≡ false → has x ys ≡ false
  has-tail x y ys h = ground arith

  pub not-has-null : (xs : Cells K V) → Apart xs → has null xs ≡ false
  not-has-null [] d = refl
  not-has-null (x ∷ xs) d = ground (arith, not-has-null xs d.2)

  -- The neighbour behind a cell is none of the cells before it.
  pub not-has-next :
      (xs : Cells K V) (y : Ptr × K × V) (ys : Cells K V)
      → Apart (xs ++ y ∷ ys)
      → has (first_or null ys) xs ≡ false
  not-has-next xs y [] d = not-has-null xs (Apart-left xs (y ∷ []) d)
  not-has-next [] y (z ∷ ys) d = refl
  not-has-next (x ∷ xs) y (z ∷ ys) d =
      ground (arith, not-has-next xs y (z ∷ ys) d.2, has-append x.0 xs (y ∷ z ∷ ys))

  pub ne-first_or :
      (x : Ptr) (us : Cells K V) (b : Ptr × K × V)
      → has x (us ++ b ∷ []) ≡ false
      → x ≢ first_or b.0 us
  ne-first_or x [] b h = has-ne x b [] h
  ne-first_or x (u ∷ us) b h = has-ne x u (us ++ b ∷ []) h

  -- An address that holds nothing is none of the cells.
  pub not-has_of_none :
      (h : Heap K V) (a p : Ptr) (xs : Cells K V) (q : Ptr)
      → h a ≡ none
      → Seg h p xs q
      → has a xs ≡ false
  not-has_of_none h a p [] q e s = refl
  not-has_of_none h a p (x ∷ xs) q e s = ground (arith, not-has_of_none h a x.0 xs q e s.1)

  pub ne-middle :
      (x : Ptr) (ws : Cells K V) (y : Ptr × K × V) (zs : Cells K V)
      → has x (ws ++ y ∷ zs) ≡ false
      → x ≢ y.0
  ne-middle x [] y zs h = has-ne x y zs h
  ne-middle x (w ∷ ws) y zs h = ne-middle x ws y zs (has-tail x w (ws ++ y ∷ zs) h)
