-- ===== src/Runner/Allocator/Linear.antt =====
-- The guest's linear memory, and the invariant over every entry point of WAMR's allocator.
use esp32_fx.Runner.Allocator.Metadata.{
  metadata_malloc-IsValid, metadata_realloc-IsValid, metadata_slot_lem,
}
use esp32_fx.Runner.Allocator.Valid.{IsValid}
use esp32_fx.Runner.Allocator.{
  WamrAllocator, Pointer, linear, Usage, linear_memory, runtime, metadata_slot, wamr_malloc,
  wamr_realloc,
}
use esp32_fx.Prelude.{
  ℕ, ◌-◌, ◌≤◌, ◌≡◌, inl, inr, ◌++◌, take, replicate, length-blit, take-blit, length-replicate, ltb,
  arith, Bool-cases, Option-cases, length, min, append-nil,
}

module _ (malloc : ℕ → Pointer) (realloc : Pointer → ℕ → Pointer) {a : WamrAllocator}
    (v : IsValid a) where
  -- `wamr_malloc` keeps the invariant of the allocator, whatever the usage and the size, and
  -- whether or not it gives memory.
  pub wamr_malloc-IsValid : (u : Usage) (size : ℕ) → IsValid (wamr_malloc malloc realloc u size a).1
  unfolding wamr_malloc
  wamr_malloc-IsValid runtime size = ground (arith, v, metadata_malloc-IsValid v size)
  wamr_malloc-IsValid linear_memory size =
      ground (arith, v, length-blit a.linear_memory 0 (replicate size 0))

  -- `wamr_realloc` keeps the invariant of the allocator, whatever the usage, the pointer and the
  -- size, and whether or not it gives memory.
  pub wamr_realloc-IsValid :
      (u : Usage) (p : Pointer) (size : ℕ) → IsValid (wamr_realloc malloc realloc u p size a).1
  unfolding wamr_realloc
  wamr_realloc-IsValid runtime p size = elim (Option-cases (metadata_slot a p)) [
    | inl e ↦ rw (e, wamr_realloc) (ground (arith, v, wamr_malloc-IsValid runtime size))
    | inr (slot, e) ↦
        rw (e, wamr_realloc) (metadata_realloc-IsValid v slot size (metadata_slot_lem v p slot e).0)
  ]
  wamr_realloc-IsValid linear_memory p size =
      ground (arith, v, length-blit a.linear_memory a.used (replicate (size - a.used) 0))

  -- On a valid allocator, an allocation of linear memory that succeeds gives bytes that are all 0.
  pub wamr_malloc_zeroed :
      (size : ℕ)
      → (wamr_malloc malloc realloc linear_memory size a).0 ≡ linear
      → take size (wamr_malloc malloc realloc linear_memory size a).1.linear_memory
        ≡ replicate size 0
  unfolding wamr_malloc
  wamr_malloc_zeroed size e = ground (
    arith,
    v,
    take-blit a.linear_memory 0 (replicate size 0) size,
    length-replicate size (let z : ℕ = 0 in z),
  )

  -- On a valid allocator, a reallocation of linear memory that gives the arena keeps the bytes in
  -- use when it grows, with zeros behind them, and keeps the bytes that stay in use when it
  -- shrinks. The new size is recorded.
  pub wamr_realloc_lem :
      (p : Pointer) (size : ℕ)
      → (wamr_realloc malloc realloc linear_memory p size a).0 ≡ linear
      → let a' = (wamr_realloc malloc realloc linear_memory p size a).1 in
        (a'.used ≡ size)
        × (take size a'.linear_memory
            ≡ take (min a.used size) a.linear_memory ++ replicate (size - a.used) 0)
  unfolding wamr_realloc
  wamr_realloc_lem p size e = elim (Bool-cases (ltb a.used size)) [
    | inl grows ↦
        let m : min a.used size ≡ a.used = ground (arith, grows) in
        let n = length-replicate {A = ℕ} (size - a.used) 0 in
        let fits : size ≤ length a.linear_memory = ground (arith, v, e) in
        let copy =
          take-blit a.linear_memory a.used (replicate (size - a.used) 0) size
            (ground (arith, n, grows)) fits in
        ground (arith, e, grows, m, copy)
    | inr shrinks ↦
        let m : min a.used size ≡ size = ground (arith, shrinks) in
        let z : size - a.used ≡ 0 = ground (arith, shrinks) in
        ground (arith, e, shrinks, m, z, append-nil (take size a.linear_memory))
  ]
