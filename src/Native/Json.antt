-- ===== src/Native/Json.antt =====
-- runtime/fx_wamr_native.c: `skip_ws`, `hex_digit`, `append_utf8` and `parse_json_string`, which read
-- the headers that the guest passes as JSON. The cursor is the list of the bytes before `end`; whether
-- `malloc` finds memory for a given size is a parameter.
pub mod Bounds
pub mod RoundTrip
use esp32_fx.Prelude.{
  ℕ, zero, suc, ◌+◌, ◌-◌, ◌*◌, ◌/◌, ◌%◌, Bool, true, false, not, ◌&&◌, ◌||◌, Option, none, some,
  List, [], ◌∷◌, ◌++◌, length, ltb, leb, ◌==◌, ◌>>=◌, if◌then◌else◌,
}

abbrev pub is_ws : ℕ → Bool
is_ws byte = byte == b' ' || byte == b'\t' || byte == b'\r' || byte == b'\n'

unfoldable pub skip_ws : List ℕ → List ℕ
skip_ws [] = []
skip_ws (byte ∷ text) = let rest = skip_ws text in if is_ws byte then rest else byte ∷ text

-- `none` is the result -1, here and below.
pub hex_digit_value : ℕ → Option ℕ
hex_digit_value ch =
    if leb b'0' ch && leb ch b'9'
    then some (ch - b'0')
    else if leb b'a' ch && leb ch b'f'
    then some (ch - b'a' + 10)
    else if leb b'A' ch && leb ch b'F'
    then some (ch - b'A' + 10)
    else none

-- `out` is what was written so far, `capacity` the size of its block. No two operands of a `|` share
-- a bit.
pub put_utf8 : ℕ → ℕ → List ℕ → Option (List ℕ)
put_utf8 capacity codepoint out =
    if leb codepoint 0x7f
    then (if leb capacity (length out + 1) then none else some (out ++ (codepoint ∷ [])))
    else if leb codepoint 0x7ff
    then (if leb capacity (length out + 2)
        then none
        else some (out ++ ((0xc0 + codepoint / 64) ∷ (0x80 + codepoint % 64) ∷ [])))
    else (if leb capacity (length out + 3)
        then none
        else some (
            out
            ++ ((0xe0 + codepoint / 4096)
                ∷ (0x80 + codepoint / 64 % 64)
                ∷ (0x80 + codepoint % 64)
                ∷ [])))

-- The loop over four digits.
pub hex_digits : ℕ → ℕ → List ℕ → Option (ℕ × List ℕ)
hex_digits zero codepoint p = some (codepoint, p)
hex_digits (suc count) codepoint [] = none
hex_digits (suc count) codepoint (ch ∷ p) = do
  digit ← hex_digit_value ch
  hex_digits count (codepoint * 16 + digit) p

-- The escapes of one letter.
pub letter_escape : ℕ → Option ℕ
letter_escape ch =
    if ch == b'"' || ch == b'\\' || ch == b'/'
    then some ch
    else if ch == b'b'
    then some 8
    else if ch == b'f'
    then some 12
    else if ch == b'n'
    then some 10
    else if ch == b'r'
    then some 13
    else if ch == b't'
    then some 9
    else none

-- The case `u`, behind its letter: the rest of the input and what was written.
pub unicode_escape : ℕ → List ℕ → List ℕ → Option (List ℕ × List ℕ)
unicode_escape capacity p out = if ltb (length p) 4 then none else (do
  (codepoint, rest) ← hex_digits 4 0 p
  written ←
      (if leb 0xd800 codepoint && leb codepoint 0xdfff
        then none
        else put_utf8 capacity codepoint out)
  some (rest, written))

-- The `switch` behind a backslash.
pub parse_escape : ℕ → List ℕ → List ℕ → Option (List ℕ × List ℕ)
parse_escape capacity [] out = none
parse_escape capacity (ch ∷ p) out =
    if ch == b'u'
    then unicode_escape capacity p out
    else (do byte ← letter_escape ch; some (p, out ++ (byte ∷ [])))

-- The loop up to the closing quote, at most `fuel` rounds: what was written, and the cursor.
pub parse_rest : ℕ → ℕ → List ℕ → List ℕ → Option (List ℕ × List ℕ)
parse_rest zero capacity p out = none
parse_rest (suc fuel) capacity [] out = none
parse_rest (suc fuel) capacity (ch ∷ p) out =
    if ch == b'"'
    then some (out, p)
    else if ltb ch 0x20
    then none
    else if not (ch == b'\\')
    then (let rest = parse_rest fuel capacity p (out ++ (ch ∷ [])) in
        if leb capacity (length out + 1) then none else rest)
    else (elim (parse_escape capacity p out) [
      | none ↦ none
      | some (rest, written) ↦ parse_rest fuel capacity rest written
    ])

-- Every round takes a byte at least. `out` has room for the rest of the input and a NUL.
pub parse_json_string : (ℕ → Bool) → List ℕ → Option (List ℕ × List ℕ)
parse_json_string has_memory [] = none
parse_json_string has_memory (c ∷ p) =
    let capacity = length p + 1 in
    if c == b'"'
    then (if has_memory capacity then parse_rest (suc (length p)) capacity p [] else none)
    else none
