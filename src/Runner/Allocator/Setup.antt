-- ===== src/Runner/Allocator/Setup.antt =====
-- runtime/fx_memory.h: `fx_verify_reserved_psram`; runtime/fx_wamr_runner.c: `init_wamr_allocator`,
-- with the board's numbers of tools/build.py. The device tree, the environment,
-- `strtoul`, `mmap` and the memory at an address are parameters.
pub mod Reserved
mod Tests
use esp32_fx.Runner.Allocator.{WamrAllocator, metadata_bytes}
use esp32_fx.Prelude.{
  ℕ, zero, suc, ◌+◌, ◌-◌, ◌*◌, ◌%◌, Bool, true, false, not, ◌&&◌, ◌||◌, Option, none, some, List,
  [], ◌∷◌, length, take, ltb, ◌==◌, if◌then◌else◌, sub_size,
}

-- FX_METADATA_ADDRESS
abbrev pub metadata_address : ℕ
metadata_address = 0x3ded0000

-- FX_WAMR_LINEAR_RESERVE_BYTES
abbrev pub linear_reserve_bytes : ℕ
linear_reserve_bytes = 0x100000

-- FX_WAMR_BORROWED_LINEAR_MIN
abbrev pub borrowed_linear_min : ℕ
borrowed_linear_min = 0x3d800000

-- FX_WAMR_BORROWED_LINEAR_MAX
abbrev pub borrowed_linear_max : ℕ
borrowed_linear_max = 0x3e000000

-- Four bytes, the highest first. No two of them meet, so `|` is `+`.
unfoldable pub big_endian : ℕ → ℕ → ℕ → ℕ → ℕ
big_endian a b c d = a * 0x1000000 + b * 0x10000 + c * 0x100 + d

-- The test of the eight bytes; `read` gave no more.
unfoldable pub is_layout : List ℕ → Bool
is_layout (a ∷ b ∷ c ∷ d ∷ e ∷ f ∷ g ∷ h ∷ []) =
    not (not (big_endian a b c d == metadata_address) || not (big_endian e f g h == 0x130000))
is_layout _ = false

-- `node` is the content of the device tree's node, if it can be opened; `read` gives eight bytes of it at
-- most.
unfoldable pub verify_reserved_psram : Option (List ℕ) → Bool
verify_reserved_psram none = false
verify_reserved_psram (some node) = is_layout (take 8 node)

-- Where the arena lies: at an address that is borrowed, or where `mmap` put it.
pub data Arena : Type 0 where
  borrowed : ℕ → Arena
  mapped : Arena

-- What `strtoul` gives: the number and the text behind it, or that `errno` is set.
module _ (strtoul : List ℕ → Option (ℕ × List ℕ)) (mmap : ℕ → Option (List ℕ))
    (memory : ℕ → ℕ → List ℕ) where
  abbrev pub fresh : List ℕ → WamrAllocator
  fresh bytes = record {
    linear_memory = bytes;
    capacity = linear_reserve_bytes;
    used = 0;
    in_use = false;
    block0 = record { offset = 0; size = 0 };
    block1 = record { offset = 0; size = 0 };
  }

  -- The tests of a borrowed address.
  pub borrowed_arena : Option (ℕ × List ℕ) → Option (Arena × WamrAllocator)
  borrowed_arena none = none
  borrowed_arena (some (address, rest)) =
      if not (length rest == 0)
        || not (address % 8 == 0)
        || ltb address borrowed_linear_min
        || not (ltb address borrowed_linear_max)
        || ltb (sub_size borrowed_linear_max address) linear_reserve_bytes
      then none
      else some (borrowed address, fresh (memory address linear_reserve_bytes))

  unfoldable pub mapped_arena : Option (List ℕ) → Option (Arena × WamrAllocator)
  mapped_arena none = none
  mapped_arena (some bytes) = some (mapped, fresh bytes)

  -- `none` is the result -1.
  unfoldable pub init_wamr_allocator :
      Option (List ℕ) → Option (List ℕ) → Option (Arena × WamrAllocator)
  init_wamr_allocator node address =
      let text : List ℕ = elim address as (λ _. List ℕ) [ none ↦ [] | some text ↦ text ] in
      if not (verify_reserved_psram node)
      then none
      else if not (linear_reserve_bytes % 65536 == 0)
      then none
      else if not (length text == 0)
      then borrowed_arena (strtoul text)
      else mapped_arena (mmap linear_reserve_bytes)
