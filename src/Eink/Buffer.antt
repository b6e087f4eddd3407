-- ===== src/Eink/Buffer.antt =====
-- runtime/fx_eink.c: `struct text_buffer`, `buffer_append` and `append_utf8`. Whether `realloc`
-- finds the memory for a given size is a parameter.
pub mod Laws
use esp32_fx.Prelude.{
  ℕ, zero, suc, ◌+◌, ◌*◌, ◌/◌, ◌%◌, Bool, true, not, ◌&&◌, Option, none, some, List, [], ◌∷◌, ◌++◌,
  length, ltb, leb, ◌==◌, if◌then◌else◌, add_size, sub_size, mul_size,
}

-- MAX_RESPONSE_BYTES
abbrev pub max_response_bytes : ℕ
max_response_bytes = 32 * 1024

-- `bytes` are the `length` bytes behind `data`, which is NULL while `capacity` is 0.
pub record TextBuffer : Type 0 where
  pub bytes : List ℕ
  pub capacity : ℕ

-- `struct text_buffer b = { 0 }`
abbrev pub empty_buffer : TextBuffer
empty_buffer = record { bytes = []; capacity = 0 }

-- The loop that doubles the capacity, at most `fuel` rounds; 32 double any word past its end.
unfoldable pub double_until : ℕ → ℕ → ℕ → ℕ
double_until zero capacity needed = capacity
double_until (suc fuel) capacity needed =
    let rest = double_until fuel (mul_size capacity 2) needed in
    if ltb capacity needed then rest else capacity

unfoldable pub grown_capacity : ℕ → ℕ → ℕ
grown_capacity capacity needed = double_until 32 (if capacity == 0 then 1024 else capacity) needed

module _ (has_memory : ℕ → Bool) where
  -- `none` is the result -1; the buffer is then as it was.
  unfoldable pub buffer_append : List ℕ → TextBuffer → Option TextBuffer
  buffer_append text buffer =
      let needed = add_size (add_size (length buffer.bytes) (length text)) 1 in
      let capacity = grown_capacity buffer.capacity needed in
      if ltb (sub_size max_response_bytes (length buffer.bytes)) (length text)
      then none
      else if not (ltb buffer.capacity needed)
      then some (record buffer { bytes = buffer.bytes ++ text })
      else if has_memory capacity
      then some (record { bytes = buffer.bytes ++ text; capacity = capacity })
      else none

-- The bytes that `append_utf8` appends. No two operands of its `|` share a bit.
unfoldable pub utf8_bytes : ℕ → List ℕ
utf8_bytes codepoint =
    if leb codepoint 0x7f
    then codepoint ∷ []
    else if leb codepoint 0x7ff
    then (0xc0 + codepoint / 64) ∷ (0x80 + codepoint % 64) ∷ []
    else if leb codepoint 0xffff && not (leb 0xd800 codepoint && leb codepoint 0xdfff)
    then (0xe0 + codepoint / 4096) ∷ (0x80 + codepoint / 64 % 64) ∷ (0x80 + codepoint % 64) ∷ []
    else b'?' ∷ []

module _ (has_memory : ℕ → Bool) where
  unfoldable pub append_utf8 : ℕ → TextBuffer → Option TextBuffer
  append_utf8 codepoint = buffer_append has_memory (utf8_bytes codepoint)
