-- ===== src/Pressure/Target.antt =====
-- `allocate_to` of src/pressure_gen/main.cpp reaches its target.
use memory_aware_governor.Base.{
  ℕ, zero, suc, ◌+◌, ◌-◌, ◌≤◌, ◌≡◌, refl, ◌∙◌, ap, true, false, ◌&&◌, Option, none, some, List, [],
  ◌∷◌, arith, ltb, if_true, if_false, length, lt→ltb, ge→ltb, ltb→lt, ltb→ge, inl, inr, Bool-cases,
  >>=-some,
}
use memory_aware_governor.Pressure.{Blocks, Attempt, push, allocate_loop, release_loop, allocate_to}

-- `current_mb` counts the blocks.
abbrev pub IsBlocks : Blocks → Type 0
IsBlocks b = b.current_mb ≡ length b.allocations

-- The first `k` rounds go on and get memory.
abbrev pub Succeeds : ℕ → List Attempt → Type 0
Succeeds zero attempts = Unit {0}
Succeeds (suc k) [] = ⊥
Succeeds (suc k) (a ∷ rest) =
    (a.keep_running ≡ true) × ((ptr : ℕ) × (a.malloc ≡ some ptr)) × Succeeds k rest

enough :
    (target : ℕ) (attempts : List Attempt) (b : Blocks)
    → target ≤ b.current_mb
    → allocate_loop target attempts b ≡ some b
enough target [] b h = if_false _ _ _ _ (ge→ltb b.current_mb target h) refl
enough target (a ∷ rest) b h = if_false _ _ _ _ (stop (ge→ltb b.current_mb target h)) refl
  where
    stop : ltb b.current_mb target ≡ false → (ltb b.current_mb target && a.keep_running) ≡ false
    stop e = rw e refl

allocates :
    (k target : ℕ) (attempts : List Attempt) (b : Blocks)
    → IsBlocks b
    → b.current_mb + k ≡ target
    → Succeeds k attempts
    → (b1 : Blocks) × (allocate_loop target attempts b ≡ some b1)
      × IsBlocks b1
      × (b1.current_mb ≡ target)
allocates zero target attempts b v h s = (b, enough target attempts b (omega arith), v, omega arith)
allocates (suc k) target [] b v h s = elim s [ ]
allocates (suc k) target (a ∷ rest) b v h (on, (ptr, e), s) =
    let (b1, runs, v1, done) = allocates k target rest (push ptr b) (omega arith) (omega arith) s in
    (
      b1,
      if_true _ _ _ _ (go (lt→ltb b.current_mb target (omega arith))) (
          ap
            (λ (o : Option ℕ). elim o [
              | none ↦ some b
              | some ptr ↦ allocate_loop target rest (push ptr b)
            ])
            e
          ∙ runs),
      v1,
      done,
    )
  where
    go : ltb b.current_mb target ≡ true → (ltb b.current_mb target && a.keep_running) ≡ true
    go e = rw (e, on) refl

pub releases :
    (target : ℕ) (blocks : List ℕ) (b : Blocks)
    → b.current_mb ≡ length blocks
    → target ≤ b.current_mb
    → IsBlocks (release_loop target blocks b) × ((release_loop target blocks b).current_mb ≡ target)
releases target [] b v h = (v, omega arith)
releases target (p ∷ ps) b v h = elim (Bool-cases (ltb target b.current_mb)) [
  | inl more ↦
      let less = ltb→lt target b.current_mb more in
      rw more (
        releases target ps (record b { current_mb = b.current_mb - 1; freed = p ∷ b.freed })
          (omega arith) (omega arith))
  | inr done ↦ let most = ltb→ge target b.current_mb done in rw done (v, omega arith)
]

-- If the count of the blocks is right, and the rounds that are missing up to the target go on and
-- get memory, allocate_to comes to its end with a right count that is exactly the target, whether
-- it has to allocate or to free.
pub allocate_to-reaches :
    (target : ℕ) (attempts : List Attempt) (b : Blocks)
    → IsBlocks b
    → Succeeds (target - b.current_mb) attempts
    → (b1 : Blocks) × (allocate_to target attempts b ≡ some b1)
      × IsBlocks b1
      × (b1.current_mb ≡ target)
unfolding allocate_to
allocate_to-reaches target attempts b v s = elim (Bool-cases (ltb b.current_mb target)) [
  | inl more ↦
      let less = ltb→lt b.current_mb target more in
      let (b1, runs, v1, done) =
        allocates (target - b.current_mb) target attempts b v (omega arith) s in
      let released = releases target b1.allocations b1 v1 (omega arith) in
      (release_loop target b1.allocations b1, >>=-some b1 _ _ _ runs refl, released.0, released.1)
  | inr fewer ↦
      let most = ltb→ge b.current_mb target fewer in
      let released = releases target b.allocations b v most in
      (
        release_loop target b.allocations b,
        >>=-some b _ _ _ (enough target attempts b most) refl,
        released.0,
        released.1,
      )
]
