-- ===== src/Runner/Allocator.antt =====
-- runtime/fx_wamr_runner.c: `struct wamr_allocator` and the functions that WAMR allocates with:
-- `metadata_malloc`, `metadata_slot`, `wamr_malloc`, `wamr_realloc`, `wamr_free`. This is the
-- board's build, with FX_WAMR_LINEAR_RESERVE_BYTES and FX_WAMR_FLASH_MODULE_ADDRESS defined. libc's
-- `malloc` and `realloc` are parameters.
pub mod Valid
pub mod Place
pub mod Metadata
pub mod Linear
pub mod Reuse
pub mod Setup
mod Tests
use esp32_fx.Prelude.{
  ℕ, zero, suc, ◌+◌, ◌-◌, ◌*◌, ◌/◌, Bool, true, false, not, ◌&&◌, ◌||◌, Option, none, some, List,
  blit, replicate, ltb, ◌==◌, if◌then◌else◌, sub_size,
}

-- FX_METADATA_BYTES of runtime/fx_memory.h
abbrev pub metadata_bytes : ℕ
metadata_bytes = 0x20000

-- A slot of `metadata_blocks` is free if its size is 0.
pub record MetadataBlock : Type 0 where
  pub offset : ℕ
  pub size : ℕ

-- `linear_memory` is the whole arena; `block0` and `block1` are `metadata_blocks[0]` and `[1]`.
pub record WamrAllocator : Type 0 where
  pub linear_memory : List ℕ
  pub capacity : ℕ
  pub used : ℕ
  pub in_use : Bool
  pub block0 : MetadataBlock
  pub block1 : MetadataBlock

-- `metadata o` is `a->metadata + o`, `linear` is `a->linear_memory`, and `libc p` any pointer of
-- libc.
pub data Pointer : Type 0 where
  null : Pointer
  metadata : ℕ → Pointer
  linear : Pointer
  libc : ℕ → Pointer

-- `mem_alloc_usage_t`, as far as the code distinguishes.
pub data Usage : Type 0 where
  linear_memory : Usage
  runtime : Usage

abbrev pub get_block : WamrAllocator → ℕ → MetadataBlock
get_block a zero = a.block0
get_block a (suc i) = a.block1

abbrev pub set_block : WamrAllocator → ℕ → MetadataBlock → WamrAllocator
set_block a zero b = record a { block0 = b }
set_block a (suc i) b = record a { block1 = b }

-- `for (slot = 0; slot < 2 && a->metadata_blocks[slot].size; slot++) {}`
pub free_slot : WamrAllocator → Option ℕ
free_slot a = if a.block0.size == 0 then some 0 else if a.block1.size == 0 then some 1 else none

-- The test of the inner loop: a live block meets `[offset, offset + size)`.
abbrev pub overlaps : MetadataBlock → ℕ → ℕ → Bool
overlaps b offset size =
    not (b.size == 0) && (ltb offset (b.offset + b.size) && ltb b.offset (offset + size))

pub first_overlap : WamrAllocator → ℕ → ℕ → Option MetadataBlock
first_overlap a offset size =
    if overlaps a.block0 offset size
    then some a.block0
    else if overlaps a.block1 offset size
    then some a.block1
    else none

-- `(end + 7U) & ~(size_t)7U`
abbrev pub align_up : ℕ → ℕ
align_up n = (n + 7) / 8 * 8

pub data Placement : Type 0 where
  no_room : Placement
  at : ℕ → Placement
  out_of_fuel : Placement

-- The search for an offset, at most `fuel` rounds of the outer loop.
pub place : ℕ → ℕ → ℕ → WamrAllocator → Placement
place zero offset size a = out_of_fuel
place (suc fuel) offset size a =
    if ltb (sub_size metadata_bytes offset) size
    then no_room
    else (elim (first_overlap a offset size) [
      | none ↦ at offset
      | some b ↦ place fuel (align_up (b.offset + b.size)) size a
    ])

-- Three rounds: with two blocks the search moves at most twice.
abbrev pub rounds : ℕ
rounds = 3

pub store : WamrAllocator → ℕ → ℕ → Placement → Pointer × WamrAllocator
store a slot size (at offset) =
    (metadata offset, set_block a slot (record { offset = offset; size = size }))
store a slot size _ = (null, a)

pub metadata_malloc : ℕ → WamrAllocator → Pointer × WamrAllocator
metadata_malloc size a =
    if size == 0 || ltb metadata_bytes size then (null, a) else (elim (free_slot a) [
      | none ↦ (null, a)
      | some slot ↦ store a slot size (place rounds 0 size a)
    ])

abbrev pub is_block : MetadataBlock → ℕ → Bool
is_block b offset = not (b.size == 0) && offset == b.offset

pub metadata_slot : WamrAllocator → Pointer → Option ℕ
metadata_slot a (metadata offset) =
    if is_block a.block0 offset then some 0 else if is_block a.block1 offset then some 1 else none
metadata_slot a _ = none

-- `slot`'s block at the new size would meet the other block.
abbrev pub meets_other : WamrAllocator → ℕ → ℕ → Bool
meets_other a slot size =
    overlaps (get_block a (if slot == 0 then 1 else 0)) (get_block a slot).offset size

pub metadata_realloc : ℕ → ℕ → WamrAllocator → Pointer × WamrAllocator
metadata_realloc slot size a =
    let offset = (get_block a slot).offset in
    if ltb (sub_size metadata_bytes offset) size || meets_other a slot size then (null, a) else (
      if size == 0 then null else metadata offset,
      set_block a slot (record { offset = offset; size = size }),
    )

is_null : Pointer → Bool
is_null null = true
is_null _ = false

is_linear : Pointer → Bool
is_linear linear = true
is_linear _ = false

module _ (malloc : ℕ → Pointer) (realloc : Pointer → ℕ → Pointer) where
  pub wamr_malloc : Usage → ℕ → WamrAllocator → Pointer × WamrAllocator
  wamr_malloc runtime size a = if ltb 32768 size then metadata_malloc size a else (malloc size, a)
  wamr_malloc linear_memory size a = if a.in_use || ltb a.capacity size then (null, a) else (
    linear,
    record a {
      linear_memory = blit a.linear_memory 0 (replicate size 0);
      used = size;
      in_use = true;
    },
  )

  pub wamr_realloc : Usage → Pointer → ℕ → WamrAllocator → Pointer × WamrAllocator
  unfolding is_null is_linear
  wamr_realloc runtime pointer size a = elim (metadata_slot a pointer) [
    | some slot ↦ metadata_realloc slot size a
    | none ↦
        if is_null pointer
        then wamr_malloc runtime size a
        else if ltb 32768 size
        then (null, a)
        else (realloc pointer size, a)
  ]
  wamr_realloc linear_memory pointer size a =
      if not (is_linear pointer) || ltb a.capacity size then (null, a) else (
        linear,
        record a {
          linear_memory =
              if ltb a.used size
              then blit a.linear_memory a.used (replicate (size - a.used) 0)
              else a.linear_memory;
          used = size;
        },
      )

-- What is libc's is freed there.
pub wamr_free : Pointer → WamrAllocator → WamrAllocator
unfolding is_linear
wamr_free pointer a = elim (metadata_slot a pointer) [
  | some slot ↦ set_block a slot (record (get_block a slot) { size = 0 })
  | none ↦ if is_linear pointer then record a { used = 0; in_use = false } else a
]
