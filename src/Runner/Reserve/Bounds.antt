-- ===== src/Runner/Reserve/Bounds.antt =====
-- runtime/fx_wamr_runner.c: where the stream buffer lies, and how far the guest's memory grows.
use esp32_fx.Runner.Allocator.Setup.{linear_reserve_bytes, borrowed_linear_min, borrowed_linear_max}
use esp32_fx.Runner.Reserve.{
  StreamBuffer, borrowed_stream, mapped_stream, stream_reserve_bytes, stream_invalid, borrow_stream,
  reserve_stream, read_limit, memory_pages,
}
use esp32_fx.Prelude.{
  ℕ, ◌+◌, ◌*◌, ◌/◌, ◌%◌, ◌≤◌, ◌<◌, ◌≡◌, ◌⊎◌, refl, subst, some_injective, inl, inr, Bool, true,
  false, not, ◌&&◌, ◌||◌, Option, none, some, List, [], ◌∷◌, length, ltb, ◌==◌, arith, Bool-cases,
}

-- A borrowed stream buffer: aligned, inside the reserved memory, and apart from the guest's arena.
abbrev pub IsApart : ℕ → StreamBuffer → Type 0
IsApart start mapped_stream = Unit
IsApart start (borrowed_stream address) =
    (address % 8 ≡ 0)
    × (borrowed_linear_min ≤ address)
    × (address + stream_reserve_bytes ≤ borrowed_linear_max)
    × ((address + stream_reserve_bytes ≤ start) ⊎ (start + linear_reserve_bytes ≤ address))

stream_invalid-IsApart :
    (start address : ℕ)
    → start + linear_reserve_bytes < 0x100000000
    → stream_invalid start address ≡ false
    → IsApart start (borrowed_stream address)
unfolding stream_invalid
stream_invalid-IsApart start address small ok =
    let overlap : (ltb address (start + linear_reserve_bytes)
          && ltb start (address + stream_reserve_bytes))
        ≡ false =
      ground (arith, ok) in
    (ground (arith, ok), ground (arith, ok), ground (arith, ok), ground (arith, overlap))

borrow_stream-IsApart :
    (start : ℕ) (number : Option (ℕ × List ℕ)) (stream : StreamBuffer)
    → start + linear_reserve_bytes < 0x100000000
    → borrow_stream start number ≡ some stream
    → IsApart start stream
unfolding borrow_stream
borrow_stream-IsApart start none stream small e = absurd (cc (e))
borrow_stream-IsApart start (some (address, rest)) stream small e =
    elim (Bool-cases (not (length rest == 0) || stream_invalid start address)) [
      | inl bad ↦ absurd (ground (arith, e, bad))
      | inr good ↦
          (let valid : stream_invalid start address ≡ false = ground (arith, good) in
            let found : borrowed_stream address ≡ stream = ground (arith, e, good) in
            subst (IsApart start) found (stream_invalid-IsApart start address small valid))
    ]

pub reserve_stream-IsApart :
    (strtoul : List ℕ → Option (ℕ × List ℕ)) (mmap_succeeds : Bool) (start : ℕ)
    (variable : Option (List ℕ)) (stream : StreamBuffer)
    → start + linear_reserve_bytes < 0x100000000
    → reserve_stream strtoul mmap_succeeds start variable ≡ some stream
    → IsApart start stream
unfolding reserve_stream
reserve_stream-IsApart strtoul true start none stream small e =
    subst (IsApart start) (some_injective mapped_stream stream e) tt
reserve_stream-IsApart strtoul true start (some []) stream small e =
    subst (IsApart start) (some_injective mapped_stream stream e) tt
reserve_stream-IsApart strtoul false start none stream small e = absurd (cc (e))
reserve_stream-IsApart strtoul false start (some []) stream small e = absurd (cc (e))
reserve_stream-IsApart strtoul ok start (some (digit ∷ text)) stream small e =
    borrow_stream-IsApart start (strtoul (digit ∷ text)) stream small e

read_limit_lem :
    (maximum : ℕ) (number : ℕ × List ℕ) (capacity pages : ℕ)
    → maximum ≡ capacity / 65536
    → 65536 ≤ capacity
    → read_limit maximum number ≡ some pages
    → pages * 65536 ≤ capacity
unfolding read_limit
read_limit_lem maximum (n, rest) capacity pages m c e = ground (arith, e, m, c)

pub memory_pages_lem :
    (strtoul : List ℕ → ℕ × List ℕ) (capacity : ℕ) (variable : Option (List ℕ)) (pages : ℕ)
    → memory_pages strtoul capacity variable ≡ some pages
    → 65536 ≤ capacity
    → pages * 65536 ≤ capacity
unfolding memory_pages
memory_pages_lem strtoul capacity none pages e c = ground (arith, e)
memory_pages_lem strtoul capacity (some []) pages e c = ground (arith, e)
memory_pages_lem strtoul capacity (some (digit ∷ text)) pages e c =
    read_limit_lem (capacity / 65536) (strtoul (digit ∷ text)) capacity pages refl c e
