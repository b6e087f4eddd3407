-- ===== src/Runner/Reserve.antt =====
-- runtime/fx_wamr_runner.c: the part of `main` that chooses the native stream buffer, with the board's
-- numbers of tools/build.py, and the one that reads the guest's page limit. `strtoul`, `mmap` and the address
-- where `mmap` put the arena are parameters.
pub mod Bounds
mod Tests
use esp32_fx.Runner.Allocator.Setup.{
  Arena, borrowed, mapped, linear_reserve_bytes, borrowed_linear_min, borrowed_linear_max,
}
use esp32_fx.Prelude.{
  ℕ, zero, suc, ◌+◌, ◌*◌, ◌/◌, ◌%◌, Bool, true, false, not, ◌&&◌, ◌||◌, Option, none, some, List,
  [], ◌∷◌, length, ltb, ◌==◌, if◌then◌else◌, add_size,
}

-- FX_WAMR_NATIVE_STREAM_RESERVE_BYTES
abbrev pub stream_reserve_bytes : ℕ
stream_reserve_bytes = 0x10000

-- `native_stream_buffer`, with its address where it is borrowed
pub data StreamBuffer : Type 0 where
  borrowed_stream : ℕ → StreamBuffer
  mapped_stream : StreamBuffer

-- `allocator.linear_memory`, of an arena that `mmap` put at an address
abbrev pub linear_start : ℕ → Arena → ℕ
linear_start mapped_at (borrowed address) = address
linear_start mapped_at mapped = mapped_at

pub stream_invalid : ℕ → ℕ → Bool
stream_invalid start address =
    let linear_end = add_size start linear_reserve_bytes in
    let stream_end = add_size address stream_reserve_bytes in
    not (address % 8 == 0)
    || ltb address borrowed_linear_min
    || not (ltb address borrowed_linear_max)
    || ltb stream_end address
    || ltb borrowed_linear_max stream_end
    || (ltb address linear_end && ltb start stream_end)

-- What `strtoul` gives: the number and the text behind it, or that `errno` is set.
pub borrow_stream : ℕ → Option (ℕ × List ℕ) → Option StreamBuffer
borrow_stream start none = none
borrow_stream start (some (address, rest)) =
    if not (length rest == 0) || stream_invalid start address
    then none
    else some (borrowed_stream address)

-- FX_WAMR_NATIVE_STREAM_ADDRESS, if it is set and not empty, else `mmap`, which may fail.
unfoldable pub reserve_stream :
    (List ℕ → Option (ℕ × List ℕ)) → Bool → ℕ → Option (List ℕ) → Option StreamBuffer
reserve_stream strtoul mmap_succeeds start none = if mmap_succeeds then some mapped_stream else none
reserve_stream strtoul mmap_succeeds start (some []) =
    if mmap_succeeds then some mapped_stream else none
reserve_stream strtoul mmap_succeeds start (some (digit ∷ text)) =
    borrow_stream start (strtoul (digit ∷ text))

-- `max_memory_pages` of a limit that `strtoul` read: the number, and the text behind it.
pub read_limit : ℕ → ℕ × List ℕ → Option ℕ
read_limit maximum (pages, rest) =
    if not (length rest == 0)
      || ltb pages 12
      || ltb 256 pages
      || (not (maximum == 0) && ltb maximum pages)
    then none
    else some pages

-- `max_memory_pages`, with FX_WAMR_MAX_PAGES; `none` is a limit that is refused.
unfoldable pub memory_pages : (List ℕ → ℕ × List ℕ) → ℕ → Option (List ℕ) → Option ℕ
memory_pages strtoul capacity none = some (capacity / 65536)
memory_pages strtoul capacity (some []) = some (capacity / 65536)
memory_pages strtoul capacity (some (digit ∷ text)) =
    read_limit (capacity / 65536) (strtoul (digit ∷ text))
