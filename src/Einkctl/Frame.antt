-- ===== src/Einkctl/Frame.antt =====
-- runtime/einkctl.c: drawing into the framebuffer, 800 by 480 pixels of one bit each, and the pages
-- of `render_text`. The font is a parameter: the byte of a glyph's row.
pub mod Bits
pub mod Pixels
pub mod Glyphs
mod Tests
use esp32_fx.Prelude.{
  ℕ, zero, suc, ◌+◌, ◌-◌, ◌*◌, ◌/◌, ◌%◌, ◌^◌, Bool, true, false, not, ◌&&◌, ◌||◌, List, [], ◌∷◌,
  length, get_or, set, ltb, leb, ◌==◌, if◌then◌else◌, ℤ, pos, negsuc,
}

abbrev pub panel_width : ℕ
panel_width = 800

abbrev pub panel_height : ℕ
panel_height = 480

abbrev pub framebuffer_bytes : ℕ
framebuffer_bytes = panel_width * panel_height / 8

-- `0x80U >> column`
abbrev pub pixel_mask : ℕ → ℕ
pixel_mask column = 0x80 / 2 ^ column

-- `(byte & (0x80U >> column)) != 0`
abbrev pub is_set : ℕ → ℕ → Bool
is_set column byte = byte / pixel_mask column % 2 == 1

-- `byte &= ~mask` if `black`, and `byte |= mask` if not. The mask has one bit.
pub write_bit : Bool → ℕ → ℕ → ℕ
write_bit black column byte =
    if black
    then (if is_set column byte then byte - pixel_mask column else byte)
    else (if is_set column byte then byte else byte + pixel_mask column)

-- The pixel of column `x` in row `y`.
pub framebuffer_pixel : ℤ → ℤ → Bool → List ℕ → List ℕ
framebuffer_pixel (pos x) (pos y) black framebuffer =
    let index = y * (panel_width / 8) + x / 8 in
    if leb panel_width x || leb panel_height y
    then framebuffer
    else set framebuffer index (write_bit black (x % 8) (get_or framebuffer index 0))
framebuffer_pixel (negsuc x) y black framebuffer = framebuffer
framebuffer_pixel (pos x) (negsuc y) black framebuffer = framebuffer

-- The two loops of `framebuffer_rect`, with the columns and the rows still to go. Here and below a
-- corner is at coordinates that are not negative, as it is in every call.
pub rect_columns : ℕ → ℕ → ℕ → Bool → List ℕ → List ℕ
rect_columns zero x y black framebuffer = framebuffer
rect_columns (suc width) x y black framebuffer =
    rect_columns width (x + 1) y black (framebuffer_pixel (pos x) (pos y) black framebuffer)

pub rect_rows : ℕ → ℕ → ℕ → ℕ → Bool → List ℕ → List ℕ
rect_rows zero x y width black framebuffer = framebuffer
rect_rows (suc height) x y width black framebuffer =
    rect_rows height x (y + 1) width black (rect_columns width x y black framebuffer)

pub framebuffer_rect : ℕ → ℕ → ℕ → ℕ → Bool → List ℕ → List ℕ
framebuffer_rect x y width height black framebuffer = rect_rows height x y width black framebuffer

abbrev pub font_width : ℕ
font_width = 8

abbrev pub font_height : ℕ
font_height = 16

-- `character - 0x20`, after the question mark took the place of what the font lacks
abbrev pub glyph_index : ℕ → ℕ
glyph_index character =
    (if ltb character 0x20 || ltb 0x7e character then b'?' else character) - 0x20

module _ (font8x16_ascii : ℕ → ℕ → ℕ) where
  -- The body of the two loops of `framebuffer_glyph`.
  pub glyph_pixel : ℕ → ℕ → ℕ → ℕ → ℕ → Bool → Bool → List ℕ → List ℕ
  glyph_pixel character row column x y black opaque framebuffer =
      if is_set column (font8x16_ascii character row)
      then framebuffer_pixel (pos (x + column)) (pos (y + row)) black framebuffer
      else if opaque
      then framebuffer_pixel (pos (x + column)) (pos (y + row)) (not black) framebuffer
      else framebuffer

  pub glyph_columns : ℕ → ℕ → ℕ → ℕ → ℕ → ℕ → Bool → Bool → List ℕ → List ℕ
  glyph_columns zero character row column x y black opaque framebuffer = framebuffer
  glyph_columns (suc n) character row column x y black opaque framebuffer =
      glyph_columns n character row (column + 1) x y black opaque
        (glyph_pixel character row column x y black opaque framebuffer)

  pub glyph_rows : ℕ → ℕ → ℕ → ℕ → ℕ → Bool → Bool → List ℕ → List ℕ
  glyph_rows zero character row x y black opaque framebuffer = framebuffer
  glyph_rows (suc n) character row x y black opaque framebuffer =
      glyph_rows n character (row + 1) x y black opaque
        (glyph_columns font_width character row 0 x y black opaque framebuffer)

  pub framebuffer_glyph : ℕ → ℕ → ℕ → Bool → Bool → List ℕ → List ℕ
  framebuffer_glyph x y character black opaque framebuffer =
      glyph_rows font_height (glyph_index character) 0 x y black opaque framebuffer

  -- `text` is the part of the text still to come.
  pub framebuffer_text : ℕ → ℕ → List ℕ → Bool → Bool → List ℕ → List ℕ
  framebuffer_text x y [] black opaque framebuffer = framebuffer
  framebuffer_text x y (character ∷ text) black opaque framebuffer =
      framebuffer_text (x + font_width) y text black opaque
        (framebuffer_glyph x y character black opaque framebuffer)
