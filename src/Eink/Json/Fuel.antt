-- ===== src/Eink/Json/Fuel.antt =====
-- The rounds of the decoder.
use esp32_fx.Eink.Buffer.{TextBuffer, buffer_append}
use esp32_fx.Eink.Json.{hex_value, read_hex, decode_escape, decode_rest}
use esp32_fx.Prelude.{
  ℕ, zero, suc, ◌+◌, ◌*◌, ◌≤◌, ◌<◌, ◌≡◌, refl, inl, inr, Bool, some, List, [], ◌∷◌, length, arith,
  bind-eq-some, Option-cases,
}

read_hex_shorter :
    (count codepoint : ℕ) (p : List ℕ) (c : ℕ) (rest : List ℕ)
    → read_hex count codepoint p ≡ some (c, rest)
    → length rest ≤ length p
unfolding read_hex
read_hex_shorter zero codepoint p c rest e = ground arith
read_hex_shorter (suc count) codepoint [] c rest e = absurd (cc)
read_hex_shorter (suc count) codepoint (byte ∷ p) c rest e =
    let (value, _, later) = bind-eq-some (hex_value byte) _ e in
    omega (arith, read_hex_shorter count (codepoint * 16 + value) p c rest later)

module _ (has_memory : ℕ → Bool) where
  decode_escape_shorter :
      (p : List ℕ) (b : TextBuffer) (rest : List ℕ) (c : TextBuffer)
      → decode_escape has_memory p b ≡ some (rest, c)
      → length rest < length p
  unfolding decode_escape
  decode_escape_shorter [] b rest c e = absurd (cc)
  decode_escape_shorter (k ∷ p) b rest c e = elim (Option-cases (read_hex 4 0 p)) [
    | inl n ↦ ground (arith, n)
    | inr ((codepoint, r), s) ↦ ground (arith, s, read_hex_shorter 4 0 p codepoint r)
  ]

  -- Any two numbers of rounds beyond the length of the input give the same result: the bound of
  -- `decode_json_string` never ends its loop.
  pub decode_rest_fuel :
      (m n : ℕ) (p : List ℕ) (b : TextBuffer)
      → length p < m
      → length p < n
      → decode_rest has_memory m p b ≡ decode_rest has_memory n p b
  unfolding decode_rest
  decode_rest_fuel zero n p b hm hn = absurd (omega arith)
  decode_rest_fuel (suc m) zero p b hm hn = absurd (omega arith)
  decode_rest_fuel (suc m) (suc n) [] b hm hn = refl
  decode_rest_fuel (suc m) (suc n) (byte ∷ p) b hm hn =
      elim (Option-cases (decode_escape has_memory p b)) [
        | inl e2 ↦ elim (Option-cases (buffer_append has_memory (byte ∷ []) b)) [
          | inl e1 ↦ ground (arith, e1, e2)
          | inr (g, e1) ↦ ground (arith, e1, e2, decode_rest_fuel m n p g)
        ]
        | inr ((rest, c), e2) ↦
            let less = decode_escape_shorter p b rest c e2 in
            let escape = decode_rest_fuel m n rest c (omega arith) (omega arith) in
            elim (Option-cases (buffer_append has_memory (byte ∷ []) b)) [
              | inl e1 ↦ ground (arith, e1, e2, escape)
              | inr (g, e1) ↦ ground (arith, e1, e2, escape, decode_rest_fuel m n p g)
            ]
      ]
