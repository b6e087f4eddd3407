-- ===== src/Runner/Allocator/Setup/Reserved.antt =====
-- What the launcher checks before it touches memory, and the allocator it starts with.
use esp32_fx.Runner.Allocator.Setup.{
  Arena, borrowed, mapped, metadata_address, linear_reserve_bytes, borrowed_linear_min,
  borrowed_linear_max, big_endian, is_layout, verify_reserved_psram, borrowed_arena, mapped_arena,
  fresh, init_wamr_allocator,
}
use esp32_fx.Runner.Allocator.Linear.{wamr_malloc-IsValid, wamr_realloc-IsValid}
use esp32_fx.Runner.Allocator.Metadata.{wamr_free-IsValid}
use esp32_fx.Runner.Allocator.Valid.{IsValid}
use esp32_fx.Runner.Allocator.{WamrAllocator, Pointer, Usage, wamr_malloc, wamr_realloc, wamr_free}
use esp32_fx.Prelude.{
  ℕ, zero, suc, ◌+◌, ◌%◌, ◌≤◌, ◌<◌, ◌≡◌, ◌↔◌, refl, subst, ◌||◌, inl, inr, true, not, Option, none,
  some, List, [], ◌∷◌, length, take, ltb, ◌==◌, All, arith, Bool-cases, sub_size,
}

-- The device tree's entry for the region: its address and its length.
abbrev pub reserved_region : List ℕ
reserved_region = 0x3d ∷ 0xed ∷ 0 ∷ 0 ∷ 0 ∷ 0x13 ∷ 0 ∷ 0 ∷ []

abbrev pub IsByte : ℕ → Type 0
IsByte b = b < 256

address_bytes :
    (a b c d : ℕ)
    → a < 256
    → b < 256
    → c < 256
    → d < 256
    → big_endian a b c d ≡ metadata_address
    → (a ≡ 0x3d) × (b ≡ 0xed) × (c ≡ 0) × (d ≡ 0)
unfolding big_endian
address_bytes a b c d ha hb hc hd e = ground arith

length_bytes :
    (a b c d : ℕ)
    → a < 256
    → b < 256
    → c < 256
    → d < 256
    → big_endian a b c d ≡ 0x130000
    → (a ≡ 0) × (b ≡ 0x13) × (c ≡ 0) × (d ≡ 0)
unfolding big_endian
length_bytes a b c d ha hb hc hd e = ground arith

is_layout_lem :
    (bytes : List ℕ) → All IsByte bytes → is_layout bytes ≡ true → bytes ≡ reserved_region
unfolding is_layout
is_layout_lem (a ∷ b ∷ c ∷ d ∷ e ∷ f ∷ g ∷ h ∷ []) (ha, (hb, (hc, (hd, (he, (hf, (hg, (hh, _))))))))
      ok =
    let low = address_bytes a b c d ha hb hc hd (ground (arith, ok)) in
    let high = length_bytes e f g h he hf hg hh (ground (arith, ok)) in
    cc (low.0, low.1, low.2, low.3, high.0, high.1, high.2, high.3)
is_layout_lem _ small ok = absurd (cc)

All-take : (P : ℕ → Type 0) (n : ℕ) (xs : List ℕ) → All P xs → All P (take n xs)
All-take P zero xs all = tt
All-take P (suc n) [] all = tt
All-take P (suc n) (x ∷ xs) all = (all.0, All-take P n xs all.1)

-- The check of the reserved memory passes exactly if the device tree's node starts with the address
-- 0x3ded0000 and the length 0x130000, as eight bytes with the highest first.
pub verify_reserved_psram_lem :
    (node : List ℕ)
    → All IsByte node
    → (verify_reserved_psram (some node) ≡ true) ↔ (take 8 node ≡ reserved_region)
unfolding verify_reserved_psram is_layout big_endian
verify_reserved_psram_lem node bytes =
    (λ ok. is_layout_lem (take 8 node) (All-take IsByte 8 node bytes) ok, λ e. rw e refl)

-- WAMR's calls.
pub data Call : Type 0 where
  malloc_call : Usage → ℕ → Call
  realloc_call : Usage → Pointer → ℕ → Call
  free_call : Pointer → Call

module _ (malloc : ℕ → Pointer) (realloc : Pointer → ℕ → Pointer) where
  abbrev pub run : List Call → WamrAllocator → WamrAllocator
  run [] a = a
  run (malloc_call usage size ∷ calls) a = run calls (wamr_malloc malloc realloc usage size a).1
  run (realloc_call usage p size ∷ calls) a =
      run calls (wamr_realloc malloc realloc usage p size a).1
  run (free_call p ∷ calls) a = run calls (wamr_free p a)

  run-IsValid : (calls : List Call) {a : WamrAllocator} → IsValid a → IsValid (run calls a)
  run-IsValid [] v = v
  run-IsValid (malloc_call usage size ∷ calls) v =
      run-IsValid calls (wamr_malloc-IsValid malloc realloc v usage size)
  run-IsValid (realloc_call usage p size ∷ calls) v =
      run-IsValid calls (wamr_realloc-IsValid malloc realloc v usage p size)
  run-IsValid (free_call p ∷ calls) v = run-IsValid calls (wamr_free-IsValid v p)

-- The arena that a borrowed address gives lies in the region that may be lent, at a multiple of 8.
abbrev pub InRegion : Arena → Type 0
InRegion (borrowed address) =
    (borrowed_linear_min ≤ address)
    × (address + linear_reserve_bytes ≤ borrowed_linear_max)
    × (address % 8 ≡ 0)
InRegion mapped = Unit {0}

module _ (strtoul : List ℕ → Option (ℕ × List ℕ)) (mmap : ℕ → Option (List ℕ))
    (memory : ℕ → ℕ → List ℕ)
    (mmap_size : (n : ℕ) (bytes : List ℕ) → mmap n ≡ some bytes → length bytes ≡ n)
    (memory_size : (address n : ℕ) → length (memory address n) ≡ n) where
  abbrev Good : Option (Arena × WamrAllocator) → Type 0
  Good none = Unit {0}
  Good (some (arena, a)) = InRegion arena × IsValid a

  fresh-IsValid :
      (bytes : List ℕ)
      → length bytes ≡ linear_reserve_bytes
      → IsValid (fresh strtoul mmap memory bytes)
  fresh-IsValid bytes size = omega (arith, size)

  borrowed_arena-Good :
      (number : Option (ℕ × List ℕ)) → Good (borrowed_arena strtoul mmap memory number)
  unfolding borrowed_arena
  borrowed_arena-Good none = tt
  borrowed_arena-Good (some (address, rest)) =
      let refused =
        not (length rest == 0)
        || not (address % 8 == 0)
        || ltb address borrowed_linear_min
        || not (ltb address borrowed_linear_max)
        || ltb (sub_size borrowed_linear_max address) linear_reserve_bytes in
      elim (Bool-cases refused) [
        | inl bad ↦ rw bad tt
        | inr good ↦ rw good (
          ground (arith, good),
          fresh-IsValid (memory address linear_reserve_bytes)
              (memory_size address linear_reserve_bytes),
        )
      ]

  mapped_arena-Good :
      (bytes : Option (List ℕ))
      → ((b : List ℕ) → bytes ≡ some b → length b ≡ linear_reserve_bytes)
      → Good (mapped_arena strtoul mmap memory bytes)
  unfolding mapped_arena
  mapped_arena-Good none size = tt
  mapped_arena-Good (some bytes) size = (tt, fresh-IsValid bytes (size bytes refl))

  init_wamr_allocator-Good :
      (node address : Option (List ℕ)) → Good (init_wamr_allocator strtoul mmap memory node address)
  unfolding init_wamr_allocator
  init_wamr_allocator-Good node address =
      let text : List ℕ = elim address as (λ _. List ℕ) [ none ↦ [] | some text ↦ text ] in
      elim (Bool-cases (verify_reserved_psram node)) [
        | inr bad ↦ rw bad tt
        | inl checked ↦ elim (Bool-cases (length text == 0)) [
          | inr given ↦ rw (checked, given) (borrowed_arena-Good (strtoul text))
          | inl not_given ↦
              rw (checked, not_given)
                (mapped_arena-Good (mmap linear_reserve_bytes)
                  (λ b e. mmap_size linear_reserve_bytes b e))
        ]
      ]

  -- If `init_wamr_allocator` succeeds, a borrowed arena lies in the region that may be lent, at a multiple
  -- of 8; and whatever WAMR then allocates, reallocates and frees, in any order, the allocator stays valid:
  -- its blocks lie aligned in the metadata arena and never meet, and no more of the guest's memory is used
  -- than there is. `mmap` and the memory at an address are taken to have the length asked for.
  pub init_wamr_allocator-IsValid :
      (malloc : ℕ → Pointer) (realloc : Pointer → ℕ → Pointer) (node address : Option (List ℕ))
      (arena : Arena) (a : WamrAllocator) (calls : List Call)
      → init_wamr_allocator strtoul mmap memory node address ≡ some (arena, a)
      → InRegion arena × IsValid (run malloc realloc calls a)
  init_wamr_allocator-IsValid malloc realloc node address arena a calls e =
      let good : Good (some (arena, a)) = subst Good e (init_wamr_allocator-Good node address) in
      (good.0, run-IsValid malloc realloc calls good.1)
