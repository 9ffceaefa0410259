-- ===== src/Pressure/Generator.antt =====
-- The main loop of src/pressure_gen/main.cpp. The functions `sin` and the constant `M_PI` are parameters.
use memory_aware_governor.Base.{
  ℕ, Bool, true, Option, none, some, List, [], ◌∷◌, if◌then◌else◌, ◌>>=◌,
}
use memory_aware_governor.Base.Double.{Doubles}
use memory_aware_governor.Base.Int.{add_int}
use memory_aware_governor.Pressure.{Blocks, Attempt, allocate_to}
use memory_aware_governor.Programs.Generator.{Settings}
use memory_aware_governor.Text.{codes, text_eq}

abbrev pub no_blocks : Blocks
no_blocks = record { obtained = []; allocations = []; current_mb = 0; freed = [] }

-- What a round meets: the flag, the seconds since the start, and the rounds of the allocation.
pub record Round (D : Type 0) : Type 0 where
  pub keep_running : Bool
  pub elapsed : D
  pub attempts : List Attempt

module _ (d : Doubles) (sin : d.Double → d.Double) (pi : d.Double) where
  open d use {Double, literal, ge, lt, add, sub, mul, div, of_int, of_u64, to_u64}

  -- The target of the mode `ramp`; `none` if a sum of times overflows.
  abbrev pub ramp_target : Settings → Double → Option ℕ
  ramp_target s elapsed =
      if lt elapsed (of_int s.ramp_time)
      then some (to_u64 (mul (div elapsed (of_int s.ramp_time)) (of_u64 s.max_mb)))
      else (do
        hold_end ← add_int s.ramp_time s.hold_time
        if lt elapsed (of_int hold_end) then some s.max_mb else (do
          release_end ← add_int hold_end s.release_time
          let release_elapsed = sub (sub elapsed (of_int s.ramp_time)) (of_int s.hold_time)
          if lt elapsed (of_int release_end)
              then some (
                  to_u64 (
                    sub (of_u64 s.max_mb)
                      (mul (div release_elapsed (of_int s.release_time)) (of_u64 s.max_mb))))
              else some 0))

  abbrev pub wave_target : Settings → Double → ℕ
  wave_target s elapsed =
      let phase = mul (mul (div elapsed (of_int s.wave_period)) (literal 200)) pi in
      to_u64 (
        mul (div (add (sin (sub phase (div pi (literal 200)))) (literal 100)) (literal 200))
          (of_u64 s.max_mb))

  -- The target of a round; 0 for a mode that is not known.
  unfoldable pub target_of : Settings → Double → Option ℕ
  target_of s elapsed =
      if text_eq s.mode (codes "ramp")
      then ramp_target s elapsed
      else if text_eq s.mode (codes "spike")
      then some (if lt elapsed (of_int s.hold_time) then s.max_mb else 0)
      else if text_eq s.mode (codes "wave")
      then some (wave_target s elapsed)
      else if text_eq s.mode (codes "hold")
      then some s.max_mb
      else some 0

  abbrev pub is_over : Settings → Round Double → Bool
  is_over s r = if r.keep_running then ge r.elapsed (of_int s.duration) else true

  unfoldable pub main_loop : Settings → List (Round Double) → Blocks → Option Blocks
  main_loop s [] b = none
  main_loop s (r ∷ rest) b = if is_over s r then some b else (do
    target_mb ← target_of s r.elapsed
    b1 ← allocate_to target_mb r.attempts b
    main_loop s rest b1)

  -- `main` behind the reading of the command line: the loop, and the release of everything.
  unfoldable pub run_generator : Settings → List (Round Double) → Option Blocks
  run_generator s rounds = do b ← main_loop s rounds no_blocks; allocate_to 0 [] b
