-- ===== src/Eink/Json.antt =====
-- runtime/fx_eink.c: the JSON of the agent protocol: `hex_value`, `decode_json_string`
-- and `write_json_string`. A C string is the
-- list of its bytes before the NUL; a cursor is what is left of it.
pub mod Fuel
pub mod RoundTrip
pub mod Writing
mod Tests
use esp32_fx.Eink.Buffer.{TextBuffer, empty_buffer, buffer_append, append_utf8}
use esp32_fx.Prelude.{
  ℕ, zero, suc, ◌+◌, ◌-◌, ◌*◌, ◌/◌, ◌%◌, Bool, true, false, not, ◌&&◌, ◌||◌, Option, none, some,
  List, [], ◌∷◌, ◌++◌, length, ltb, leb, ◌==◌, ◌>>=◌, if◌then◌else◌,
}

-- `none` is the result -1.
unfoldable pub hex_value : ℕ → Option ℕ
hex_value byte =
    if leb b'0' byte && leb byte b'9'
    then some (byte - b'0')
    else if leb b'a' byte && leb byte b'f'
    then some (byte - b'a' + 10)
    else if leb b'A' byte && leb byte b'F'
    then some (byte - b'A' + 10)
    else none

-- The loop over `count` hex digits; the NUL at the end is no digit.
unfoldable pub read_hex : ℕ → ℕ → List ℕ → Option (ℕ × List ℕ)
read_hex zero codepoint p = some (codepoint, p)
read_hex (suc count) codepoint [] = none
read_hex (suc count) codepoint (byte ∷ p) = do
  value ← hex_value byte
  read_hex count (codepoint * 16 + value) p

-- The escapes of one letter.
pub escape_value : ℕ → Option ℕ
escape_value c =
    if c == b'"'
    then some b'"'
    else if c == b'\\'
    then some b'\\'
    else if c == b'/'
    then some b'/'
    else if c == b'b'
    then some 8
    else if c == b'f'
    then some 12
    else if c == b'n'
    then some 10
    else if c == b'r'
    then some 13
    else if c == b't'
    then some 9
    else none

module _ (has_memory : ℕ → Bool) where
  -- The `switch` behind a backslash, with what it appends: the rest of the input and the buffer.
  unfoldable pub decode_escape : List ℕ → TextBuffer → Option (List ℕ × TextBuffer)
  decode_escape [] decoded = none
  decode_escape (c ∷ p) decoded =
      if c == b'u'
      then (do
        (codepoint, rest) ← read_hex 4 0 p
        grown ← append_utf8 has_memory codepoint decoded
        some (rest, grown))
      else (do
        byte ← escape_value c
        grown ← buffer_append has_memory (byte ∷ []) decoded
        some (p, grown))

  -- The loop up to the closing quote, at most `fuel` rounds; `none` is the result -1.
  unfoldable pub decode_rest : ℕ → List ℕ → TextBuffer → Option (List ℕ × TextBuffer)
  decode_rest zero p decoded = none
  decode_rest (suc fuel) [] decoded = none
  decode_rest (suc fuel) (byte ∷ p) decoded =
      if byte == b'"'
      then some (p, decoded)
      else if ltb byte 0x20
      then none
      else if not (byte == b'\\')
      then (elim (buffer_append has_memory (byte ∷ []) decoded) [
        | none ↦ none
        | some grown ↦ decode_rest fuel p grown
      ])
      else (elim (decode_escape p decoded) [
        | none ↦ none
        | some (rest, grown) ↦ decode_rest fuel rest grown
      ])

  -- Every round takes a byte at least.
  unfoldable pub decode_json_string : List ℕ → TextBuffer → Option (List ℕ × TextBuffer)
  decode_json_string [] decoded = none
  decode_json_string (c ∷ p) decoded =
      if c == b'"' then decode_rest (suc (length p)) p decoded else none

-- The text that the `switch` of `write_json_string` writes for a byte.
unfoldable pub hex_digit : ℕ → ℕ
hex_digit value = if ltb value 10 then b'0' + value else b'a' + (value - 10)

unfoldable pub escaped : ℕ → List ℕ
escaped byte =
    if byte == b'"'
    then b'\\' ∷ b'"' ∷ []
    else if byte == b'\\'
    then b'\\' ∷ b'\\' ∷ []
    else if byte == 8
    then b'\\' ∷ b'b' ∷ []
    else if byte == 12
    then b'\\' ∷ b'f' ∷ []
    else if byte == 10
    then b'\\' ∷ b'n' ∷ []
    else if byte == 13
    then b'\\' ∷ b'r' ∷ []
    else if byte == 9
    then b'\\' ∷ b't' ∷ []
    else if ltb byte 0x20
    then b'\\' ∷ b'u' ∷ b'0' ∷ b'0' ∷ hex_digit (byte / 16) ∷ hex_digit (byte % 16) ∷ []
    else byte ∷ []

-- An output stream: `put` is `fputs`, `fputc` or `fprintf` of the given bytes, `none` its EOF.
module _ {File : Type 0} (put : List ℕ → File → Option File) where
  unfoldable pub write_escaped : List ℕ → File → Option File
  write_escaped [] output = some output
  write_escaped (byte ∷ text) output = do
    output' ← put (escaped byte) output
    write_escaped text output'

  unfoldable pub write_json_string : List ℕ → File → Option File
  write_json_string text output = do
    opened ← put (b'"' ∷ []) output
    written ← write_escaped text opened
    put (b'"' ∷ []) written
