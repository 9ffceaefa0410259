-- ===== src/Lru/Spec.antt =====
-- What `LRUCache` (include/client/governed_cache.h) promises, with no pointers: a list of entries,
-- most recently used first.
use memory_aware_governor.Base.{
  ℕ, zero, suc, ◌+◌, ◌%◌, ◌≤◌, ◌≡◌, refl, ap, Option, none, some, List, [], ◌∷◌, ◌++◌, map, arith,
  length, ◌==◌, if◌then◌else◌, u64,
}
use memory_aware_governor.Lru.Invariant.{find}
use memory_aware_governor.Lru.Segment.{Ptr, Cells}
use mathlib.Core.Logic.{ite}

pub record Contents (K V : Type 0) : Type 0 where
  pub entries : List (K × V)
  pub limit : ℕ
  pub hit_count : ℕ
  pub miss_count : ℕ

module _ {K V : Type 0} where
  abbrev pub entries_of : Cells K V → List (K × V)
  entries_of = map (λ x. (x.1, x.2))

  pub length-entries_of : (xs : Cells K V) → length (entries_of xs) ≡ length xs
  length-entries_of [] = refl
  length-entries_of (x ∷ xs) = ap suc (length-entries_of xs)

  pub entries_of-append :
      (xs ys : Cells K V) → entries_of (xs ++ ys) ≡ entries_of xs ++ entries_of ys
  entries_of-append [] ys = refl
  entries_of-append (x ∷ xs) ys = ap (◌∷◌ (x.1, x.2)) (entries_of-append xs ys)

module _ {A : Type 0} where
  unfoldable pub drop_last : List A → List A
  drop_last [] = []
  drop_last (x ∷ []) = []
  drop_last (x ∷ y ∷ xs) = x ∷ drop_last (y ∷ xs)

  unfoldable pub take : ℕ → List A → List A
  take zero xs = []
  take (suc n) [] = []
  take (suc n) (x ∷ xs) = x ∷ take n xs

  pub drop_last-nil : ◌≡◌ {A = List A} (drop_last []) []
  unfolding drop_last
  drop_last-nil = refl

  pub drop_last-append : (xs : List A) (x : A) → drop_last (xs ++ x ∷ []) ≡ xs
  unfolding drop_last
  drop_last-append [] x = refl
  drop_last-append (y ∷ []) x = refl
  drop_last-append (y ∷ z ∷ xs) x = ap (◌∷◌ y) (drop_last-append (z ∷ xs) x)

  pub length-drop_last :
      (xs : List A) → length (drop_last xs) + 1 ≤ length xs + (if length xs == 0 then 1 else 0)
  unfolding drop_last
  length-drop_last [] = omega arith
  length-drop_last (x ∷ []) = omega arith
  length-drop_last (x ∷ y ∷ xs) = ground (arith, length-drop_last (y ∷ xs))

  pub take_all : (n : ℕ) (xs : List A) → length xs ≤ n → take n xs ≡ xs
  unfolding take
  take_all zero [] h = refl
  take_all zero (x ∷ xs) h = absurd (omega arith)
  take_all (suc n) [] h = refl
  take_all (suc n) (x ∷ xs) h = ap (◌∷◌ x) (take_all n xs (omega arith))

  pub take-append : (n : ℕ) (xs ys : List A) → n ≤ length xs → take n (xs ++ ys) ≡ take n xs
  unfolding take
  take-append zero xs ys h = refl
  take-append (suc n) [] ys h = absurd (omega arith)
  take-append (suc n) (x ∷ xs) ys h = ap (◌∷◌ x) (take-append n xs ys (omega arith))

module _ {K V : Type 0} where
  unfoldable pub evict_to_spec : ℕ → Contents K V → Contents K V
  evict_to_spec n m = record m { entries = take n m.entries }

  unfoldable pub resize_spec : ℕ → Contents K V → Contents K V
  resize_spec n m = record m { entries = take n m.entries; limit = n }

module _ {K V : Type 0} (dec : Discrete K) where
  unfoldable pub lookup : K → List (K × V) → Option V
  lookup k [] = none
  lookup k (e ∷ es) = ite (dec e.0 k) (some e.1) (lookup k es)

  unfoldable pub remove : K → List (K × V) → List (K × V)
  remove k [] = []
  remove k (e ∷ es) = ite (dec e.0 k) es (e ∷ remove k es)

  -- Look a key up, and make it the most recently used.
  unfoldable pub get_spec : K → Contents K V → Option V × Contents K V
  get_spec k m = elim (lookup k m.entries) [
    | none ↦ (none, record m { miss_count = (m.miss_count + 1) % u64 })
    | some v ↦ (
      some v,
      record m { entries = (k, v) ∷ remove k m.entries; hit_count = (m.hit_count + 1) % u64 },
    )
  ]

  -- The other entries that stay when a key is stored: a new key takes the place of the least
  -- recently used entry if the number of entries is the limit.
  unfoldable pub kept : K → Contents K V → List (K × V)
  kept k m = elim (lookup k m.entries) [
    | none ↦ if length m.entries == m.limit then drop_last m.entries else m.entries
    | some v ↦ remove k m.entries
  ]

  unfoldable pub put_spec : K → V → Contents K V → Contents K V
  put_spec k v m = record m { entries = (k, v) ∷ kept k m }

  -- How the entries of cells are searched.
  pub lookup-none :
      (k : K) (xs : Cells K V) → find dec k xs ≡ none → lookup k (entries_of xs) ≡ none
  unfolding lookup
  lookup-none k [] h = refl
  lookup-none k (x ∷ xs) h = ground (arith, lookup-none k xs)

  pub lookup-split :
      (k : K) (ws : Cells K V) (p : Ptr) (v : V) (zs : Cells K V)
      → find dec k ws ≡ none
      → lookup k (entries_of (ws ++ (p, k, v) ∷ zs)) ≡ some v
  unfolding lookup
  lookup-split k [] p v zs h = ground arith
  lookup-split k (w ∷ ws) p v zs h = ground (arith, lookup-split k ws p v zs)

  pub remove-split :
      (k : K) (ws : Cells K V) (p : Ptr) (v : V) (zs : Cells K V)
      → find dec k ws ≡ none
      → remove k (entries_of (ws ++ (p, k, v) ∷ zs)) ≡ entries_of (ws ++ zs)
  unfolding remove
  remove-split k [] p v zs h = ground arith
  remove-split k (w ∷ ws) p v zs h = ground (arith, remove-split k ws p v zs)
