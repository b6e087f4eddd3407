-- ===== src/Eink/Json/RoundTrip.antt =====
-- `decode_json_string` on what `write_json_string` writes.
use esp32_fx.Eink.Buffer.Laws.{
  IsValid, empty_buffer-IsValid, buffer_append_lem, buffer_append_total,
}
use esp32_fx.Eink.Buffer.{
  TextBuffer, empty_buffer, max_response_bytes, buffer_append, append_utf8, utf8_bytes,
}
use esp32_fx.Eink.Json.{
  hex_value, read_hex, escape_value, decode_escape, decode_rest, decode_json_string, hex_digit,
  escaped,
}
use esp32_fx.Prelude.{
  ℕ, zero, suc, ◌+◌, ◌/◌, ◌%◌, ◌≤◌, ◌<◌, ◌≡◌, refl, Bool, true, some, List, [], ◌∷◌, ◌++◌, length,
  length-append, append_assoc, append-nil, ltb, arith, ◌>>=◌, Bool-cases, inl, inr, ap, ◌∙◌, sym,
}

-- The bytes between the quotes.
abbrev pub escaped_text : List ℕ → List ℕ
escaped_text [] = []
escaped_text (byte ∷ text) = escaped byte ++ escaped_text text

abbrev pub quoted : List ℕ → List ℕ
quoted text = b'"' ∷ (escaped_text text ++ (b'"' ∷ []))

hex_value-hex_digit : (value : ℕ) → value < 16 → hex_value (hex_digit value) ≡ some value
unfolding hex_value hex_digit
hex_value-hex_digit value h = ground arith

hex_value_zero : hex_value b'0' ≡ some 0
unfolding hex_value
hex_value_zero = refl

read_hex_control :
    (byte : ℕ) (rest : List ℕ)
    → byte < 32
    → read_hex 4 0 (b'0' ∷ b'0' ∷ hex_digit (byte / 16) ∷ hex_digit (byte % 16) ∷ rest)
      ≡ some (byte, rest)
unfolding read_hex
read_hex_control byte rest h =
    rw
      (
        hex_value_zero,
        hex_value-hex_digit (byte / 16) (omega arith),
        hex_value-hex_digit (byte % 16) (omega arith),
      )
      (ap (λ (n : ℕ). some (n, rest)) (omega arith))

utf8_bytes_ascii : (byte : ℕ) → byte < 32 → utf8_bytes byte ≡ byte ∷ []
unfolding utf8_bytes
utf8_bytes_ascii byte h = ground arith

module _ (has_memory : ℕ → Bool) where
  decode_escape_control :
      (byte : ℕ) (rest : List ℕ) (b : TextBuffer)
      → byte < 32
      → decode_escape has_memory
          (b'u' ∷ b'0' ∷ b'0' ∷ hex_digit (byte / 16) ∷ hex_digit (byte % 16) ∷ rest)
          b
        ≡ (buffer_append has_memory (byte ∷ []) b >>= λ c. some (rest, c))
  unfolding decode_escape append_utf8
  decode_escape_control byte rest b h =
      rw (read_hex_control byte rest h) (rw (utf8_bytes_ascii byte h))

  -- One round of the decoder takes what the writer wrote for one byte, and appends that byte.
  decode_rest-escaped :
      (fuel byte : ℕ) (rest : List ℕ) (b : TextBuffer)
      → decode_rest has_memory (suc fuel) (escaped byte ++ rest) b
        ≡ (buffer_append has_memory (byte ∷ []) b >>= λ c. decode_rest has_memory fuel rest c)
  unfolding decode_rest escaped
  decode_rest-escaped fuel byte rest b = elim (Bool-cases (ltb byte 32)) [
    | inl control ↦
        unfold decode_escape escape_value in
        ground (arith, control, decode_escape_control byte rest b (ground (arith, control)))
    | inr plain ↦ unfold decode_escape escape_value in ground (arith, plain)
  ]

  -- The whole text, up to the closing quote. Each of its bytes takes one round.
  decode_rest-escaped_text :
      (text : List ℕ) (fuel : ℕ) (rest : List ℕ) (b : TextBuffer)
      → IsValid b
      → ((n : ℕ) → has_memory n ≡ true)
      → length text < fuel
      → length b.bytes + length text ≤ max_response_bytes
      → (c : TextBuffer) × (decode_rest has_memory fuel (escaped_text text ++ (b'"' ∷ rest)) b
          ≡ some (rest, c))
        × (c.bytes ≡ b.bytes ++ text)
        × IsValid c
  decode_rest-escaped_text text zero rest b v memory f fits = absurd (omega arith)
  decode_rest-escaped_text [] (suc fuel) rest b v memory f fits =
      (b, unfold decode_rest in refl, sym (append-nil b.bytes), v)
  decode_rest-escaped_text (byte ∷ text) (suc fuel) rest b v memory f fits =
      let (b', appended) = buffer_append_total has_memory (byte ∷ []) b v memory (omega arith) in
      let (grown, v') = buffer_append_lem has_memory (byte ∷ []) b b' v appended in
      let len : length b'.bytes ≡ length b.bytes + 1 =
        rw grown (length-append b.bytes (byte ∷ [])) in
      let (c, decoded, bytes, vc) =
        decode_rest-escaped_text text fuel rest b' v' memory (omega arith) (omega arith) in
      (
        c,
        rw (append_assoc (escaped byte) (escaped_text text) (b'"' ∷ rest)) (
            decode_rest-escaped fuel byte (escaped_text text ++ (b'"' ∷ rest)) b
            ∙ rw appended decoded),
        rw (bytes, grown) (append_assoc b.bytes (byte ∷ []) text),
        vc,
      )

length-escaped : (byte : ℕ) → 1 ≤ length (escaped byte)
unfolding escaped
length-escaped byte = ground arith

pub length-escaped_text : (text : List ℕ) → length text ≤ length (escaped_text text)
length-escaped_text [] = omega arith
length-escaped_text (byte ∷ text) = omega (
  arith,
  length-append (escaped byte) (escaped_text text),
  length-escaped byte,
  length-escaped_text text,
)

-- A text of at most 32 KiB comes back from the text that `write_json_string` puts between quotes,
-- whatever its bytes are and whatever follows, if memory lasts, in a valid buffer.
pub decode_json_string-quoted :
    (has_memory : ℕ → Bool) (text rest : List ℕ)
    → ((n : ℕ) → has_memory n ≡ true)
    → length text ≤ max_response_bytes
    → (c : TextBuffer) × (decode_json_string has_memory (quoted text ++ rest) empty_buffer
        ≡ some (rest, c))
      × (c.bytes ≡ text)
      × IsValid c
unfolding decode_json_string
decode_json_string-quoted has_memory text rest memory fits =
    let after : List ℕ = b'"' ∷ rest in
    let (c, decoded, bytes, vc) =
      decode_rest-escaped_text has_memory text (suc (length (escaped_text text ++ after))) rest
        empty_buffer empty_buffer-IsValid memory
        (omega (arith, length-escaped_text text, length-append (escaped_text text) after))
        (omega arith) in
    (c, rw (append_assoc (escaped_text text) (b'"' ∷ []) rest) decoded, bytes, vc)
