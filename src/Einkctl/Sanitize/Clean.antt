-- ===== src/Einkctl/Sanitize/Clean.antt =====
-- `sanitize_text`: the bytes of its output, and input that is clean already.
use esp32_fx.Einkctl.Sanitize.{
  Escape, escape_none, escape_start, escape_csi, escape_osc, plain_byte, sanitize_byte,
  sanitize_rest, sanitize_text,
}
use esp32_fx.Prelude.{
  ℕ, zero, suc, ◌+◌, ◌%◌, ◌-◌, ◌≤◌, ◌≡◌, ◌⊎◌, refl, List, [], ◌∷◌, length, All, All-append,
  replicate, arith, ap,
}

-- A newline, or a character of the font.
abbrev pub IsClean : ℕ → Type 0
IsClean byte = (byte ≡ b'\n') ⊎ (0x20 ≤ byte) × (byte ≤ 0x7e)

spaces-IsClean : (n : ℕ) → All IsClean (replicate n b' ')
spaces-IsClean zero = ground arith
spaces-IsClean (suc n) = ground (arith, spaces-IsClean n)

plain_byte-IsClean :
    (byte : ℕ) (rest : List ℕ) (destination : ℕ)
    → All IsClean (plain_byte byte rest destination).added
unfolding plain_byte
plain_byte-IsClean byte rest destination = ground (arith, spaces-IsClean (4 - destination % 4))

sanitize_byte-IsClean :
    (escape : Escape) (byte : ℕ) (rest : List ℕ) (destination : ℕ)
    → All IsClean (sanitize_byte escape byte rest destination).added
unfolding sanitize_byte
sanitize_byte-IsClean escape_none byte rest destination = plain_byte-IsClean byte rest destination
sanitize_byte-IsClean escape_start byte rest destination = ground arith
sanitize_byte-IsClean escape_csi byte rest destination = ground arith
sanitize_byte-IsClean escape_osc byte rest destination = ground arith

sanitize_rest-IsClean :
    (fuel : ℕ) (escape : Escape) (input : List ℕ) (destination : ℕ)
    → All IsClean (sanitize_rest fuel escape input destination)
unfolding sanitize_rest
sanitize_rest-IsClean zero escape input destination = ground arith
sanitize_rest-IsClean (suc fuel) escape [] destination = ground arith
sanitize_rest-IsClean (suc fuel) escape (byte ∷ rest) destination =
    let r = sanitize_byte escape byte rest destination in
    All-append IsClean r.added (sanitize_rest fuel r.escape r.rest (destination + length r.added))
      (sanitize_byte-IsClean escape byte rest destination)
      (sanitize_rest-IsClean fuel r.escape r.rest (destination + length r.added))

-- Every byte of the output is a newline or a printable ASCII character, whatever the input is: no
-- escape sequence, control character or part of a multi-byte character is left.
pub sanitize_text-IsClean : (input : List ℕ) → All IsClean (sanitize_text input)
unfolding sanitize_text
sanitize_text-IsClean input = sanitize_rest-IsClean (length input) escape_none input 0

clean_byte :
    (byte : ℕ) (rest : List ℕ) (destination : ℕ)
    → IsClean byte
    → sanitize_byte escape_none byte rest destination
      ≡ record { escape = escape_none; rest = rest; added = byte ∷ [] }
unfolding sanitize_byte plain_byte
clean_byte byte rest destination clean = ground arith

clean_rest :
    (input : List ℕ) (destination : ℕ)
    → All IsClean input
    → sanitize_rest (length input) escape_none input destination ≡ input
unfolding sanitize_rest
clean_rest [] destination clean = refl
clean_rest (byte ∷ rest) destination clean =
    rw (clean_byte byte rest destination clean.0)
      (ap (λ later. byte ∷ later) (clean_rest rest (destination + 1) clean.1))

-- Text of newlines and printable ASCII characters comes out unchanged.
pub sanitize_text_clean : (input : List ℕ) → All IsClean input → sanitize_text input ≡ input
unfolding sanitize_text
sanitize_text_clean input clean = clean_rest input 0 clean

-- To sanitize a text a second time changes nothing.
pub sanitize_text_twice :
    (input : List ℕ) → sanitize_text (sanitize_text input) ≡ sanitize_text input
sanitize_text_twice input = sanitize_text_clean (sanitize_text input) (sanitize_text-IsClean input)
