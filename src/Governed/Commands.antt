-- ===== src/Governed/Commands.antt =====
-- What a SHRINK or GROW does to a cache (src/client/governed_cache.cpp).
use mathlib.Core.Path.{subst}
use native.Mathlib.Nat.{le-div_iff_mul-le}
use memory_aware_governor.Base.{
  ℕ, zero, suc, ◌*◌, ◌/◌, ◌≤◌, ◌<◌, ◌≡◌, refl, Bool, some, List, [], ◌∷◌, arith, length, if_true,
  if_false, >>=-some, u64, lt→ltb, ne→==,
}
use memory_aware_governor.Base.Int.{ℤ}
use memory_aware_governor.Lru.{Cache}
use memory_aware_governor.Lru.Refinement.{Refines}
use memory_aware_governor.Lru.Refinement.Resize.{resize-Refines}
use memory_aware_governor.Lru.Refinement.Put.{length-entries}
use memory_aware_governor.Lru.Spec.{Contents, resize_spec, take, take_all}
use memory_aware_governor.Client.{Client, WriteResult, report_size}
use memory_aware_governor.Governed.{divide, size_bytes, apply_capacity, handle_shrink, handle_grow}

-- A cache of `n` entries fits in `t` bytes if `n` is at most the entries of `t`.
fits : (n t e : ℕ) → 0 < e → n ≤ t / e → n * e ≤ t
fits n t e pos_e h = (le-div_iff_mul-le pos_e).0 h

length-take_le : {A : Type 0} (n : ℕ) (xs : List A) → length (take n xs) ≤ n
unfolding take
length-take_le zero xs = omega arith
length-take_le (suc n) [] = omega arith
length-take_le (suc n) (x ∷ xs) = omega (arith, length-take_le n xs)

pub divide-pos : (t e : ℕ) → 0 < e → divide t e ≡ some (t / e)
divide-pos t e h = if_false _ _ _ _ (ne→== e 0 (λ z. omega arith)) refl

-- The sending of a report comes to an end, with or without success.
abbrev pub Ends : ℤ → List WriteResult → Client → Type 0
Ends pid writes client =
    (n : ℕ) → (sent : Client × Bool) × (report_size pid n writes client ≡ some sent)

module _ {K V : Type 0} (dec : Discrete K) where
  size-limit :
      (n : ℕ) (c : Cache K V) (m : Contents K V) → Refines dec c (resize_spec n m) → c.size ≤ n
  unfolding resize_spec
  size-limit n c m r =
      omega (arith, length-entries dec c (resize_spec n m) r, length-take_le n m.entries)

  module _ (e : ℕ) (pid : ℤ) (writes : List WriteResult) where
    apply_capacity-Refines :
        (n : ℕ) (client : Client) (c : Cache K V) (m : Contents K V)
        → Refines dec c m
        → c.size < u64
        → Ends pid writes client
        → (c1 : Cache K V) × (sent : Client × Bool) × (apply_capacity dec e pid writes n (client, c)
            ≡ some (sent.0, c1))
          × (report_size pid (size_bytes e c1) writes client ≡ some sent)
          × Refines dec c1 (resize_spec n m)
    apply_capacity-Refines n client c m r small ends =
        let (c1, runs, r1) = resize-Refines dec n c m r small in
        let (sent, s) = ends (size_bytes e c1) in
        (c1, sent, >>=-some c1 _ _ _ runs (>>=-some sent _ _ _ s refl), s, r1)

    -- For a cache that stands for some contents, with a size below 2 to the 64, a positive
    -- estimate of the bytes of an entry, and a sending of reports that comes to an end, a SHRINK
    -- to t bytes whose quotient by the estimate is below the capacity meets no fault: the cache
    -- then stands for its most recently used entries, as many as the quotient, which is its
    -- capacity; its size times the estimate is at most t; and the size in bytes that it then has
    -- is reported.
    pub shrink_fits :
        (t : ℕ) (client : Client) (c : Cache K V) (m : Contents K V)
        → Refines dec c m
        → c.size < u64
        → Ends pid writes client
        → 0 < e
        → t / e < c.capacity
        → (c1 : Cache K V) × (sent : Client × Bool) × (handle_shrink dec e pid writes t (client, c)
            ≡ some (sent.0, c1))
          × (report_size pid (size_bytes e c1) writes client ≡ some sent)
          × Refines dec c1 (resize_spec (t / e) m)
          × (c1.size * e ≤ t)
    unfolding handle_shrink
    shrink_fits t client c m r small ends pos_e less =
        let (c1, sent, runs, s, r1) = apply_capacity-Refines (t / e) client c m r small ends in
        (
          c1,
          sent,
          >>=-some (t / e) _ _ _ (divide-pos t e pos_e)
              (if_true _ _ _ _ (lt→ltb (t / e) c.capacity less) runs),
          s,
          r1,
          fits c1.size t e pos_e (size-limit (t / e) c1 m r1),
        )

    -- For a cache that stands for some contents, with a size below 2 to the 64 and at most the
    -- capacity, a positive estimate of the bytes of an entry, and a sending of reports that comes
    -- to an end, a GROW to t bytes whose quotient by the estimate is above the capacity meets no
    -- fault: the capacity is the quotient, every entry is kept, and the size in bytes is
    -- reported.
    pub grow_keeps :
        (t : ℕ) (client : Client) (c : Cache K V) (m : Contents K V)
        → Refines dec c m
        → c.size < u64
        → c.size ≤ c.capacity
        → Ends pid writes client
        → 0 < e
        → c.capacity < t / e
        → (c1 : Cache K V) × (sent : Client × Bool) × (handle_grow dec e pid writes t (client, c)
            ≡ some (sent.0, c1))
          × (report_size pid (size_bytes e c1) writes client ≡ some sent)
          × Refines dec c1 (record m { limit = t / e })
    unfolding handle_grow resize_spec
    grow_keeps t client c m r small bound ends pos_e more =
        let (c1, sent, runs, s, r1) = apply_capacity-Refines (t / e) client c m r small ends in
        let room : length m.entries ≤ t / e = omega (arith, length-entries dec c m r) in
        (
          c1,
          sent,
          >>=-some (t / e) _ _ _ (divide-pos t e pos_e)
              (if_true _ _ _ _ (lt→ltb c.capacity (t / e) more) runs),
          s,
          subst (λ (es : List (K × V)). Refines dec c1 (record m { entries = es; limit = t / e }))
              (take_all (t / e) m.entries room) r1,
        )
