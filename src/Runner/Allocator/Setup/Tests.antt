-- ===== src/Runner/Allocator/Setup/Tests.antt =====
-- The set-up's theorems at concrete inputs.
use esp32_fx.Runner.Allocator.Setup.Reserved.{
  Call, malloc_call, free_call, InRegion, run, reserved_region, init_wamr_allocator-IsValid,
}
use esp32_fx.Runner.Allocator.Setup.{
  borrowed, fresh, borrowed_arena, init_wamr_allocator, verify_reserved_psram, is_layout,
  big_endian,
}
use esp32_fx.Runner.Allocator.Valid.{IsValid}
use esp32_fx.Runner.Allocator.{Pointer, null, metadata, runtime}
use esp32_fx.Prelude.{
  ℕ, refl, Option, none, some, List, [], ◌∷◌, replicate, length-replicate, codes,
}

-- Every text is the number 0x3d900000.
abbrev one_number : List ℕ → Option (ℕ × List ℕ)
one_number text = some (0x3d900000, [])

abbrev no_mmap : ℕ → Option (List ℕ)
no_mmap n = none

abbrev zeros : ℕ → ℕ → List ℕ
zeros address n = replicate n 0

abbrev calls : List Call
calls = malloc_call runtime 40000 ∷ free_call (metadata 0) ∷ []

no_malloc : ℕ → Pointer
no_malloc size = null

no_realloc : Pointer → ℕ → Pointer
no_realloc p size = null

init_wamr_allocator-IsValid_example :
    InRegion (borrowed 0x3d900000)
    × IsValid (
        run no_malloc no_realloc calls (fresh one_number no_mmap zeros (zeros 0x3d900000 0x100000)))
unfolding init_wamr_allocator verify_reserved_psram is_layout big_endian borrowed_arena
init_wamr_allocator-IsValid_example =
    init_wamr_allocator-IsValid one_number no_mmap zeros (λ n bytes e. absurd (cc))
      (λ address n. length-replicate {A = ℕ} n 0) no_malloc no_realloc (some reserved_region)
      (some (codes "0x3d900000")) (borrowed 0x3d900000)
      (fresh one_number no_mmap zeros (zeros 0x3d900000 0x100000)) calls refl
