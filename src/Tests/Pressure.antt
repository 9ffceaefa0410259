-- ===== src/Tests/Pressure.antt =====
-- `allocate_to` of src/pressure_gen/main.cpp, up from one block and down from three.
use memory_aware_governor.Base.{
  ℕ, ◌≡◌, refl, true, false, none, some, List, [], ◌∷◌, arith, inl, inr, count,
}
use memory_aware_governor.Base.Int.{pos}
use memory_aware_governor.Pressure.{Blocks, Attempt, allocate_to}
use memory_aware_governor.Pressure.Freed.{all_blocks_freed}
use memory_aware_governor.Pressure.Generator.{Round, target_of, run_generator}
use memory_aware_governor.Pressure.Target.{IsBlocks, allocate_to-reaches}
use memory_aware_governor.Programs.Generator.{Settings}
use memory_aware_governor.Text.{codes}
use memory_aware_governor.Tests.{hundredths}

abbrev one : Blocks
one = record { obtained = 11 ∷ []; allocations = 11 ∷ []; current_mb = 1; freed = [] }

abbrev three : Blocks
three = record {
  obtained = 13 ∷ 12 ∷ 11 ∷ [];
  allocations = 13 ∷ 12 ∷ 11 ∷ [];
  current_mb = 3;
  freed = [];
}

abbrev attempt : ℕ → Attempt
attempt ptr = record { keep_running = true; malloc = some ptr }

down :
    allocate_to 1 [] three
    ≡ some (record one { obtained = 13 ∷ 12 ∷ 11 ∷ []; freed = 12 ∷ 13 ∷ [] })
unfolding allocate_to
down = refl

-- Without memory the loop gives up.
out_of_memory : allocate_to 3 (record { keep_running = true; malloc = none } ∷ []) one ≡ some one
unfolding allocate_to
out_of_memory = refl

allocate_to-reaches_example :
    (b1 : Blocks) × (allocate_to 3 (attempt 12 ∷ attempt 13 ∷ []) one ≡ some b1)
    × IsBlocks b1
    × (b1.current_mb ≡ 3)
allocate_to-reaches_example =
    allocate_to-reaches 3 (attempt 12 ∷ attempt 13 ∷ []) one refl
      (refl, (12, refl), (refl, (13, refl), tt))

-- The mode ramp to four blocks in ten seconds: two at five seconds, and none at the end.
abbrev ramp : Settings
ramp = record {
  mode = codes "ramp";
  max_mb = 4;
  duration = pos 30;
  ramp_time = pos 10;
  hold_time = pos 10;
  release_time = pos 10;
  wave_period = pos 20;
  touch_pages = true;
}

abbrev rounds : List (Round ℕ)
rounds =
    record { keep_running = true; elapsed = 500; attempts = attempt 1 ∷ attempt 2 ∷ [] }
    ∷ record { keep_running = false; elapsed = 600; attempts = [] }
    ∷ []

targets :
    (target_of hundredths (λ x. x) 314 ramp 500 ≡ some 2)
    × (target_of hundredths (λ x. x) 314 ramp 1500 ≡ some 4)
    × (target_of hundredths (λ x. x) 314 ramp 2500 ≡ some 2)
    × (target_of hundredths (λ x. x) 314 ramp 3100 ≡ some 0)
unfolding target_of
targets = (refl, refl, refl, refl)

all_blocks_freed_example :
    (b : Blocks) × (run_generator hundredths (λ x. x) 314 ramp rounds ≡ some b)
    × (b.allocations ≡ [])
    × (b.current_mb ≡ 0)
    × ((p : ℕ) → count p b.freed ≡ count p b.obtained)
unfolding target_of
all_blocks_freed_example =
    all_blocks_freed hundredths (λ x. x) 314 ramp rounds
      (inr (refl, (2, refl, omega arith), inl refl))
