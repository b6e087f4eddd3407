-- ===== src/Prelude/Words.antt =====
-- The machine's words: `size_t`, `uint32_t` and pointers are 32 bits wide on the ESP32-S3.
use Prim.Native.Nat.{ℕ, ◌+◌, ◌-◌, ◌*◌, ◌%◌, ◌^◌}

abbrev pub word : ℕ
word = 2 ^ 32

-- SIZE_MAX, UINT32_MAX
abbrev pub size_max : ℕ
size_max = 2 ^ 32 - 1

-- `size_t` arithmetic wraps.
abbrev pub add_size : ℕ → ℕ → ℕ
add_size a b = (a + b) % word

abbrev pub sub_size : ℕ → ℕ → ℕ
sub_size a b = (a + word - b) % word

abbrev pub mul_size : ℕ → ℕ → ℕ
mul_size a b = (a * b) % word
