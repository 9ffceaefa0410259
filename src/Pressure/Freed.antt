-- ===== src/Pressure/Freed.antt =====
-- `main` of src/pressure_gen/main.cpp frees every block that it was given, once.
use memory_aware_governor.Base.{
  ℕ, ◌+◌, ◌-◌, ◌≤◌, ◌≡◌, refl, sym, ◌∙◌, ap, true, false, ◌&&◌, some, List, [], ◌∷◌, arith, ltb,
  if_true, if_false, length, count, ge→ltb, ◌⊎◌, inl, inr, Bool-cases, Option-cases, >>=-some,
}
use memory_aware_governor.Base.Double.{Doubles}
use memory_aware_governor.Pressure.{Blocks, Attempt, push, allocate_loop, release_loop, allocate_to}
use memory_aware_governor.Pressure.Target.{IsBlocks, releases}
use memory_aware_governor.Pressure.Generator.{
  Round, no_blocks, target_of, is_over, main_loop, run_generator,
}
use memory_aware_governor.Programs.Generator.{Settings}

-- The count of the blocks is right, and each block that was obtained is held or was freed, as often
-- as it was obtained.
pub record Accounted (b : Blocks) : Type 0 where
  pub counted : IsBlocks b
  pub kept : (p : ℕ) → count p b.allocations + count p b.freed ≡ count p b.obtained

-- The rounds of an allocation suffice for a target, whatever is held.
allocate_loop-Accounted :
    (target : ℕ) (attempts : List Attempt) (b : Blocks)
    → Accounted b
    → target ≤ b.current_mb + length attempts
    → (b1 : Blocks) × (allocate_loop target attempts b ≡ some b1) × Accounted b1
allocate_loop-Accounted target [] b v h =
    (b, if_false _ _ _ _ (ge→ltb b.current_mb target (omega arith)) refl, v)
allocate_loop-Accounted target (a ∷ rest) b v h =
    elim (Bool-cases (ltb b.current_mb target && a.keep_running)) [
      | inr stops ↦ (b, if_false _ _ _ _ stops refl, v)
      | inl more ↦ elim (Option-cases a.malloc) [
        | inl out ↦ (b, if_true _ _ _ _ more (rw out refl), v)
        | inr (ptr, got) ↦
            let (b1, runs, v1) =
              allocate_loop-Accounted target rest (push ptr b)
                (record { counted = omega (arith, v.counted); kept = λ p. omega (arith, v.kept p) })
                (omega arith) in
            (b1, if_true _ _ _ _ more (rw got runs), v1)
      ]
    ]

release_loop-kept :
    (target : ℕ) (blocks : List ℕ) (b : Blocks) (p : ℕ)
    → count p (release_loop target blocks b).allocations
        + count p (release_loop target blocks b).freed
      ≡ count p blocks + count p b.freed
release_loop-kept target [] b p = omega arith
release_loop-kept target (q ∷ qs) b p = elim (Bool-cases (ltb target b.current_mb)) [
  | inl more ↦ rw more (
      let ih =
        release_loop-kept target qs
          (record b { current_mb = b.current_mb - 1; freed = q ∷ b.freed }) p in
      omega (arith, ih))
  | inr done ↦ rw done refl
]

release_loop-counted :
    (target : ℕ) (blocks : List ℕ) (b : Blocks)
    → b.current_mb ≡ length blocks
    → IsBlocks (release_loop target blocks b)
release_loop-counted target [] b v = v
release_loop-counted target (q ∷ qs) b v = elim (Bool-cases (ltb target b.current_mb)) [
  | inl more ↦ rw more (
      release_loop-counted target qs
        (record b { current_mb = b.current_mb - 1; freed = q ∷ b.freed }) (omega arith))
  | inr done ↦ rw done v
]

release_loop-obtained :
    (target : ℕ) (blocks : List ℕ) (b : Blocks)
    → (release_loop target blocks b).obtained ≡ b.obtained
release_loop-obtained target [] b = refl
release_loop-obtained target (q ∷ qs) b = elim (Bool-cases (ltb target b.current_mb)) [
  | inl more ↦ rw more (
      release_loop-obtained target qs
        (record b { current_mb = b.current_mb - 1; freed = q ∷ b.freed }))
  | inr done ↦ rw done refl
]

release_loop-Accounted :
    (target : ℕ) (b : Blocks) → Accounted b → Accounted (release_loop target b.allocations b)
release_loop-Accounted target b v = record {
  counted = release_loop-counted target b.allocations b v.counted;
  kept = λ p.
      release_loop-kept target b.allocations b p
      ∙ v.kept p
      ∙ ap (count p) (sym (release_loop-obtained target b.allocations b));
}

allocate_to-Accounted :
    (target : ℕ) (attempts : List Attempt) (b : Blocks)
    → Accounted b
    → target ≤ length attempts
    → (b1 : Blocks) × (allocate_to target attempts b ≡ some b1) × Accounted b1
unfolding allocate_to
allocate_to-Accounted target attempts b v h =
    let (b1, runs, v1) = allocate_loop-Accounted target attempts b v (omega arith) in
    (
      release_loop target b1.allocations b1,
      >>=-some b1 _ _ _ runs refl,
      release_loop-Accounted target b1 v1,
    )

no_length : (xs : List ℕ) → length xs ≡ 0 → xs ≡ []
no_length [] h = refl
no_length (x ∷ xs) h = absurd (omega (arith, h))

-- Nothing is held behind a release down to 0.
release_all :
    (b : Blocks)
    → Accounted b
    → let b1 = release_loop 0 b.allocations b in
      (b1.allocations ≡ [])
      × (b1.current_mb ≡ 0)
      × ((p : ℕ) → count p b1.freed ≡ count p b1.obtained)
release_all b v =
    let b1 : Blocks = release_loop 0 b.allocations b in
    let v1 = release_loop-Accounted 0 b v in
    let (counted, none_left) = releases 0 b.allocations b v.counted (omega arith) in
    let empty : b1.allocations ≡ [] =
      no_length b1.allocations (omega (arith, counted, none_left)) in
    (empty, none_left, λ p. omega (arith, ap (count p) empty, v1.kept p))

module _ (d : Doubles) (sin : d.Double → d.Double) (pi : d.Double) (s : Settings) where
  open d use {Double}

  -- One of the rounds ends the loop, and in those before it the target is defined and there are as many
  -- rounds of the allocation as it says.
  abbrev pub Supplied : List (Round Double) → Type 0
  Supplied [] = ⊥
  Supplied (r ∷ rest) =
      (is_over d sin pi s r ≡ true)
      ⊎ ((is_over d sin pi s r ≡ false)
          × ((t : ℕ) × (target_of d sin pi s r.elapsed ≡ some t) × (t ≤ length r.attempts))
          × Supplied rest)

  main_loop-Accounted :
      (rounds : List (Round Double)) (b : Blocks)
      → Supplied rounds
      → Accounted b
      → (b1 : Blocks) × (main_loop d sin pi s rounds b ≡ some b1) × Accounted b1
  unfolding main_loop
  main_loop-Accounted [] b h v = elim h [ ]
  main_loop-Accounted (r ∷ rest) b (inl over) v = (b, if_true _ _ _ _ over refl, v)
  main_loop-Accounted (r ∷ rest) b (inr (going, (t, at_t, most), h)) v =
      let (b1, allocated, v1) = allocate_to-Accounted t r.attempts b v most in
      let (b2, runs, v2) = main_loop-Accounted rest b1 h v1 in
      (b2, if_false _ _ _ _ going (>>=-some t _ _ _ at_t (>>=-some b1 _ _ _ allocated runs)), v2)

  -- If the main loop of the generator meets a round that ends it, and in each round before that
  -- the target is defined and as many rounds of the allocation as it says are given, then main
  -- comes to its end with no block held and a count of 0, and every block has been freed as often
  -- as malloc has returned it, whatever attempts failed or were interrupted.
  pub all_blocks_freed :
      (rounds : List (Round Double))
      → Supplied rounds
      → (b : Blocks) × (run_generator d sin pi s rounds ≡ some b)
        × (b.allocations ≡ [])
        × (b.current_mb ≡ 0)
        × ((p : ℕ) → count p b.freed ≡ count p b.obtained)
  unfolding run_generator allocate_to
  all_blocks_freed rounds h =
      let (b1, runs, v1) =
        main_loop-Accounted rounds no_blocks h (record { counted = refl; kept = λ p. refl }) in
      let (empty, none_left, freed) = release_all b1 v1 in
      (
        release_loop 0 b1.allocations b1,
        >>=-some b1 _ _ _ runs
            (>>=-some b1 _ _ _ (if_false _ _ _ _ (ge→ltb b1.current_mb 0 (omega arith)) refl) refl),
        empty,
        none_left,
        freed,
      )
