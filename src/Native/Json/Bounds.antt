-- ===== src/Native/Json/Bounds.antt =====
-- The block that `parse_json_string` allocates, and the rounds of its loop.
use esp32_fx.Native.Json.{
  put_utf8, hex_digits, letter_escape, unicode_escape, parse_escape, parse_rest, parse_json_string,
  hex_digit_value,
}
use esp32_fx.Prelude.{
  ℕ, zero, suc, ◌+◌, ◌*◌, ◌/◌, ◌%◌, ◌≤◌, ◌<◌, ◌≡◌, inl, inr, Bool, some, List, [], ◌∷◌, ◌++◌,
  length, length-append, arith, bind-eq-some, Option-cases,
}

put_utf8_small :
    (capacity codepoint : ℕ) (out written : List ℕ)
    → put_utf8 capacity codepoint out ≡ some written
    → length written ≤ length out + 3
unfolding put_utf8
put_utf8_small capacity codepoint out written e = ground (
  arith,
  length-append out (codepoint ∷ []),
  length-append out ((0xc0 + codepoint / 64) ∷ (0x80 + codepoint % 64) ∷ []),
  length-append out
      ((0xe0 + codepoint / 4096) ∷ (0x80 + codepoint / 64 % 64) ∷ (0x80 + codepoint % 64) ∷ []),
)

hex_digits_taken :
    (count codepoint : ℕ) (p : List ℕ) (c : ℕ) (rest : List ℕ)
    → hex_digits count codepoint p ≡ some (c, rest)
    → length rest + count ≡ length p
unfolding hex_digits
hex_digits_taken zero codepoint p c rest e = ground arith
hex_digits_taken (suc count) codepoint [] c rest e = absurd (cc)
hex_digits_taken (suc count) codepoint (ch ∷ p) c rest e =
    let (digit, _, later) = bind-eq-some (hex_digit_value ch) _ e in
    omega (arith, hex_digits_taken count (codepoint * 16 + digit) p c rest later)

unicode_escape_small :
    (capacity : ℕ) (p out rest written : List ℕ)
    → unicode_escape capacity p out ≡ some (rest, written)
    → (length written ≤ length out + 3) × (length rest + 4 ≤ length p)
unfolding unicode_escape
unicode_escape_small capacity p out rest written e = elim (Option-cases (hex_digits 4 0 p)) [
  | inl n ↦ ground (arith, n)
  | inr ((codepoint, later), h) ↦ elim (Option-cases (put_utf8 capacity codepoint out)) [
    | inl n ↦ ground (arith, h, n)
    | inr (w, f) ↦ ground (
      arith,
      h,
      f,
      hex_digits_taken 4 0 p codepoint later h,
      put_utf8_small capacity codepoint out w f,
    )
  ]
]

-- An escape takes a byte more than it writes.
parse_escape_small :
    (capacity : ℕ) (p out rest written : List ℕ)
    → parse_escape capacity p out ≡ some (rest, written)
    → (length written + length rest ≤ length out + length p) × (length rest < length p)
unfolding parse_escape
parse_escape_small capacity [] out rest written e = absurd (cc)
parse_escape_small capacity (ch ∷ p) out rest written e = elim (Option-cases (letter_escape ch)) [
  | inl n ↦ ground (arith, n, unicode_escape_small capacity p out rest written)
  | inr (byte, l) ↦
      ground
        (arith, l, unicode_escape_small capacity p out rest written, length-append out (byte ∷ []))
]

parse_rest_small :
    (fuel capacity : ℕ) (p out value rest : List ℕ)
    → parse_rest fuel capacity p out ≡ some (value, rest)
    → length value + length rest < length out + length p
unfolding parse_rest
parse_rest_small zero capacity p out value rest e = absurd (cc)
parse_rest_small (suc fuel) capacity [] out value rest e = absurd (cc)
parse_rest_small (suc fuel) capacity (ch ∷ p) out value rest e =
    elim (Option-cases (parse_escape capacity p out)) [
      | inl n ↦ ground (
        arith,
        n,
        parse_rest_small fuel capacity p (out ++ (ch ∷ [])) value rest,
        length-append out (ch ∷ []),
      )
      | inr ((later, w), f) ↦ ground (
        arith,
        f,
        parse_rest_small fuel capacity p (out ++ (ch ∷ [])) value rest,
        length-append out (ch ∷ []),
        parse_rest_small fuel capacity later w value rest,
        parse_escape_small capacity p out later w f,
      )
    ]

-- A string that `parse_json_string` reads, with its NUL, fits the block that it allocates, as long as
-- the rest of the input and one byte; and the cursor moves past the string's quotes and its text.
pub parse_json_string_small :
    (has_memory : ℕ → Bool) (p value rest : List ℕ)
    → parse_json_string has_memory p ≡ some (value, rest)
    → length value + length rest + 2 ≤ length p
unfolding parse_json_string
parse_json_string_small has_memory [] value rest e = absurd (cc)
parse_json_string_small has_memory (c ∷ p) value rest e =
    ground (arith, parse_rest_small (suc (length p)) (length p + 1) p [] value rest)
