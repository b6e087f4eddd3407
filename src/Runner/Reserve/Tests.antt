-- ===== src/Runner/Reserve/Tests.antt =====
-- The stream buffer and the page limit at concrete inputs.
use esp32_fx.Runner.Reserve.{
  borrowed_stream, stream_invalid, borrow_stream, reserve_stream, read_limit, memory_pages,
}
use esp32_fx.Runner.Reserve.Bounds.{IsApart, reserve_stream-IsApart}
use esp32_fx.Prelude.{ℕ, Option, none, some, List, [], ◌≡◌, refl, true, codes, arith}

-- Directly behind an arena at 0x3d800000.
abbrev number : List ℕ → Option (ℕ × List ℕ)
number text = some (0x3d900000, [])

reserve_stream_test :
    reserve_stream number true 0x3d800000 (some (codes "0x3d900000"))
    ≡ some (borrowed_stream 0x3d900000)
unfolding reserve_stream borrow_stream stream_invalid
reserve_stream_test = refl

reserve_stream-IsApart_example : IsApart 0x3d800000 (borrowed_stream 0x3d900000)
reserve_stream-IsApart_example =
    reserve_stream-IsApart number true 0x3d800000 (some (codes "0x3d900000"))
      (borrowed_stream 0x3d900000) (omega arith) reserve_stream_test

-- One byte into the arena.
reserve_stream_overlap : reserve_stream number true 0x3d800008 (some (codes "0x3d900000")) ≡ none
unfolding reserve_stream borrow_stream stream_invalid
reserve_stream_overlap = refl

abbrev sixteen : List ℕ → ℕ × List ℕ
sixteen text = (16, [])

memory_pages_test : memory_pages sixteen 0x100000 (some (codes "16")) ≡ some 16
unfolding memory_pages read_limit
memory_pages_test = refl
