-- ===== src/Einkctl/Sanitize/Tests.antt =====
-- `sanitize_text` on concrete text.
use esp32_fx.Einkctl.Sanitize.Clean.{IsClean, sanitize_text-IsClean, sanitize_text_twice}
use esp32_fx.Einkctl.Sanitize.Laws.{length-sanitize_text}
use esp32_fx.Einkctl.Sanitize.{
  plain_byte, sanitize_byte, sanitize_rest, sanitize_text, next_is, skip_continuations,
}
use esp32_fx.Prelude.{ℕ, ◌*◌, ◌+◌, ◌<◌, ◌≡◌, refl, List, [], ◌∷◌, All, length}

-- A colour sequence around an a, a tab, a two-byte character and a carriage return with its
-- newline.
abbrev coloured : List ℕ
coloured = 0x1b ∷ b'[' ∷ b'3' ∷ b'1' ∷ b'm' ∷ b'a' ∷ b'\t' ∷ 0xc3 ∷ 0xa9 ∷ b'\r' ∷ b'\n' ∷ []

coloured_text : sanitize_text coloured ≡ b'a' ∷ b' ' ∷ b' ' ∷ b' ' ∷ b'?' ∷ b'\n' ∷ []
unfolding sanitize_text sanitize_rest sanitize_byte plain_byte next_is skip_continuations
coloured_text = refl

length-sanitize_text_example : length (sanitize_text coloured) < 4 * length coloured + 1
length-sanitize_text_example = length-sanitize_text coloured

sanitize_text-IsClean_example : All IsClean (sanitize_text coloured)
sanitize_text-IsClean_example = sanitize_text-IsClean coloured

sanitize_text_twice_example : sanitize_text (sanitize_text coloured) ≡ sanitize_text coloured
sanitize_text_twice_example = sanitize_text_twice coloured
