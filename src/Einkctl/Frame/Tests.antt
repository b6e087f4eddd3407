-- ===== src/Einkctl/Frame/Tests.antt =====
-- Drawing into a concrete framebuffer.
use esp32_fx.Einkctl.Frame.Glyphs.{inked, framebuffer_glyph_lem}
use esp32_fx.Einkctl.Frame.Pixels.{IsValid, is_white}
use esp32_fx.Einkctl.Frame.{framebuffer_bytes, glyph_index, is_set, framebuffer_glyph}
use esp32_fx.Prelude.{
  ℕ, ◌+◌, ◌≡◌, true, false, ◌&&◌, List, ltb, leb, if◌then◌else◌, replicate, length-replicate, arith,
}

plain_font : ℕ → ℕ → ℕ
plain_font character row = 0x18

abbrev blank : List ℕ
blank = replicate framebuffer_bytes 0xff

blank-IsValid : IsValid blank
blank-IsValid = length-replicate {A = ℕ} framebuffer_bytes 0xff

framebuffer_glyph_lem_example :
    is_white (framebuffer_glyph plain_font 8 32 b'x' true false blank) 11 40 ≡ (
      if leb 8 11 && ltb 11 (8 + 8) && (leb 32 40 && ltb 40 (32 + 16))
      then inked (is_set 3 (plain_font (glyph_index b'x') 8)) true false (is_white blank 11 40)
      else is_white blank 11 40)
framebuffer_glyph_lem_example =
    framebuffer_glyph_lem plain_font (omega arith) (omega arith) blank 8 32 b'x' true false
      blank-IsValid
