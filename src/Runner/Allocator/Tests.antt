-- ===== src/Runner/Allocator/Tests.antt =====
-- The allocator's theorems at concrete states.
use esp32_fx.Runner.Allocator.Linear.{wamr_realloc_lem}
use esp32_fx.Runner.Allocator.Valid.{IsValid}
use esp32_fx.Runner.Allocator.{
  WamrAllocator, Pointer, null, linear, linear_memory, wamr_realloc, metadata_slot,
}
use esp32_fx.Prelude.{ℕ, ◌≡◌, refl, true, [], ◌∷◌, take, arith}

-- An arena of four bytes with two in use, and one block of 40,000 bytes behind the first 65,536.
abbrev arena : WamrAllocator
arena = record {
  linear_memory = 7 ∷ 8 ∷ 9 ∷ 9 ∷ [];
  capacity = 4;
  used = 2;
  in_use = true;
  block0 = record { offset = 65536; size = 40000 };
  block1 = record { offset = 0; size = 0 };
}

arena-IsValid : IsValid arena
arena-IsValid = omega arith

no_malloc : ℕ → Pointer
no_malloc size = null

no_realloc : Pointer → ℕ → Pointer
no_realloc p size = null

wamr_realloc_lem_example :
    let a' = (wamr_realloc no_malloc no_realloc linear_memory linear 4 arena).1 in
    (a'.used ≡ 4) × (take 4 a'.linear_memory ≡ 7 ∷ 8 ∷ 0 ∷ 0 ∷ [])
unfolding wamr_realloc metadata_slot
wamr_realloc_lem_example = wamr_realloc_lem no_malloc no_realloc arena-IsValid linear 4 refl
