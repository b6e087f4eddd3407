-- ===== src/Native/Json/RoundTrip.antt =====
-- `parse_json_string` on text between quotes, as the programs' writers escape it.
use esp32_fx.Eink.Json.RoundTrip.{escaped_text, quoted, length-escaped_text}
use esp32_fx.Eink.Json.{escaped, hex_digit}
use esp32_fx.Native.Json.{
  put_utf8, hex_digits, letter_escape, unicode_escape, parse_escape, parse_rest, parse_json_string,
  hex_digit_value,
}
use esp32_fx.Prelude.{
  ℕ, zero, suc, ◌+◌, ◌/◌, ◌%◌, ◌<◌, ◌≡◌, refl, sym, ap, ◌∙◌, inl, inr, Bool, true, some, List, [],
  ◌∷◌, ◌++◌, length, length-append, append_assoc, append-nil, ltb, arith, Bool-cases,
}

hex_digit_value-hex_digit :
    (value : ℕ) → value < 16 → hex_digit_value (hex_digit value) ≡ some value
unfolding hex_digit_value hex_digit
hex_digit_value-hex_digit value h = ground arith

hex_digit_value_zero : hex_digit_value b'0' ≡ some 0
unfolding hex_digit_value
hex_digit_value_zero = refl

hex_digits_control :
    (byte : ℕ) (rest : List ℕ)
    → byte < 32
    → hex_digits 4 0 (b'0' ∷ b'0' ∷ hex_digit (byte / 16) ∷ hex_digit (byte % 16) ∷ rest)
      ≡ some (byte, rest)
unfolding hex_digits
hex_digits_control byte rest h =
    rw
      (
        hex_digit_value_zero,
        hex_digit_value-hex_digit (byte / 16) (omega arith),
        hex_digit_value-hex_digit (byte % 16) (omega arith),
      )
      (ap (λ (n : ℕ). some (n, rest)) (omega arith))

put_utf8_control :
    (capacity byte : ℕ) (out : List ℕ)
    → byte < 32
    → length out + 1 < capacity
    → put_utf8 capacity byte out ≡ some (out ++ (byte ∷ []))
unfolding put_utf8
put_utf8_control capacity byte out h room = ground arith

unicode_escape_control :
    (capacity byte : ℕ) (rest out : List ℕ)
    → byte < 32
    → length out + 1 < capacity
    → unicode_escape capacity
        (b'0' ∷ b'0' ∷ hex_digit (byte / 16) ∷ hex_digit (byte % 16) ∷ rest)
        out
      ≡ some (rest, out ++ (byte ∷ []))
unfolding unicode_escape
unicode_escape_control capacity byte rest out h room =
    ground (arith, hex_digits_control byte rest h, put_utf8_control capacity byte out h room)

-- One round takes what was written for one byte.
parse_rest-escaped :
    (fuel capacity byte : ℕ) (rest out : List ℕ)
    → length out + 1 < capacity
    → parse_rest (suc fuel) capacity (escaped byte ++ rest) out
      ≡ parse_rest fuel capacity rest (out ++ (byte ∷ []))
unfolding parse_rest escaped
parse_rest-escaped fuel capacity byte rest out room = elim (Bool-cases (ltb byte 32)) [
  | inl control ↦
      unfold parse_escape letter_escape in
      ground (
        arith,
        control,
        room,
        unicode_escape_control capacity byte rest out (ground (arith, control)) room,
      )
  | inr plain ↦ unfold parse_escape letter_escape in ground (arith, plain, room)
]

parse_rest-escaped_text :
    (text : List ℕ) (fuel capacity : ℕ) (rest out : List ℕ)
    → length text < fuel
    → length out + length text < capacity
    → parse_rest fuel capacity (escaped_text text ++ (b'"' ∷ rest)) out ≡ some (out ++ text, rest)
parse_rest-escaped_text text zero capacity rest out f room = absurd (omega arith)
parse_rest-escaped_text [] (suc fuel) capacity rest out f room =
    unfold parse_rest in ap (λ (v : List ℕ). some (v, rest)) (sym (append-nil out))
parse_rest-escaped_text (byte ∷ text) (suc fuel) capacity rest out f room =
    let later =
      parse_rest-escaped_text text fuel capacity rest (out ++ (byte ∷ [])) (omega arith)
        (omega (arith, length-append out (byte ∷ []))) in
    rw (append_assoc (escaped byte) (escaped_text text) (b'"' ∷ rest)) (
      parse_rest-escaped fuel capacity byte (escaped_text text ++ (b'"' ∷ rest)) out (omega arith)
      ∙ later
      ∙ ap (λ (v : List ℕ). some (v, rest)) (append_assoc out (byte ∷ []) text))

-- While memory lasts, `parse_json_string` reads any text back from its quoted form, whatever follows.
pub parse_json_string-quoted :
    (has_memory : ℕ → Bool) (text rest : List ℕ)
    → ((n : ℕ) → has_memory n ≡ true)
    → parse_json_string has_memory (quoted text ++ rest) ≡ some (text, rest)
unfolding parse_json_string
parse_json_string-quoted has_memory text rest memory =
    let after : List ℕ = b'"' ∷ rest in
    let n = length (escaped_text text ++ after) in
    rw (append_assoc (escaped_text text) (b'"' ∷ []) rest, memory (n + 1))
      (parse_rest-escaped_text text (suc n) (n + 1) rest []
        (omega (arith, length-escaped_text text, length-append (escaped_text text) after))
        (omega (arith, length-escaped_text text, length-append (escaped_text text) after)))
