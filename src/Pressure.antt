-- ===== src/Pressure.antt =====
-- The allocation of the pressure generator, `allocate_to` of src/pressure_gen/main.cpp.
--
-- What the rounds of the first loop find is a list: whether `keep_running` still holds, and the result of
-- `malloc`. `none` is a loop that still runs at the end of the list.
pub mod Target
pub mod Generator
pub mod Freed
use memory_aware_governor.Base.{
  ℕ, zero, suc, ◌+◌, ◌-◌, Bool, true, false, ◌&&◌, Option, none, some, List, [], ◌∷◌, ltb,
  if◌then◌else◌, ◌>>=◌,
}

-- The last block stands first; `obtained` are the blocks that `malloc` has returned, and `freed` those
-- that were freed, the last one first.
pub record Blocks : Type 0 where
  pub obtained : List ℕ
  pub allocations : List ℕ
  pub current_mb : ℕ
  pub freed : List ℕ

pub record Attempt : Type 0 where
  pub keep_running : Bool
  pub malloc : Option ℕ

abbrev pub push : ℕ → Blocks → Blocks
push ptr b = record b {
  obtained = ptr ∷ b.obtained;
  allocations = ptr ∷ b.allocations;
  current_mb = b.current_mb + 1;
}

abbrev pub allocate_loop : ℕ → List Attempt → Blocks → Option Blocks
allocate_loop target_mb [] b = if ltb b.current_mb target_mb then none else some b
allocate_loop target_mb (a ∷ rest) b =
    if ltb b.current_mb target_mb && a.keep_running
    then elim a.malloc [ none ↦ some b | some ptr ↦ allocate_loop target_mb rest (push ptr b) ]
    else some b

-- The second loop, over the blocks.
abbrev pub release_loop : ℕ → List ℕ → Blocks → Blocks
release_loop target_mb [] b = record b { allocations = [] }
release_loop target_mb (ptr ∷ rest) b =
    if ltb target_mb b.current_mb
    then release_loop target_mb rest
        (record b { current_mb = b.current_mb - 1; freed = ptr ∷ b.freed })
    else record b { allocations = ptr ∷ rest }

unfoldable pub allocate_to : ℕ → List Attempt → Blocks → Option Blocks
allocate_to target_mb attempts b = do
  b1 ← allocate_loop target_mb attempts b
  some (release_loop target_mb b1.allocations b1)
