-- ===== src/Einkctl/Frame/Glyphs.antt =====
-- What a glyph does to each pixel of the panel.
use esp32_fx.Einkctl.Frame.Pixels.{
  IsValid, is_white, framebuffer_pixel-IsValid, framebuffer_pixel_lem,
}
use esp32_fx.Einkctl.Frame.{
  panel_width, panel_height, font_width, font_height, is_set, framebuffer_pixel, glyph_pixel,
  glyph_columns, glyph_rows, glyph_index, framebuffer_glyph,
}
use esp32_fx.Prelude.{
  ℕ, zero, suc, ◌+◌, ◌-◌, ◌<◌, ◌≡◌, Bool, true, false, not, ◌&&◌, List, ltb, leb, ◌==◌,
  if◌then◌else◌, arith, pos,
}

-- The colour of a pixel that a glyph covers, where `before` was its colour.
abbrev pub inked : Bool → Bool → Bool → Bool → Bool
inked set black opaque before = if set then not black else if opaque then black else before

-- A column drawn before the columns behind it.
columns_step :
    (bit : ℕ → Bool) (black opaque in_row w0 w1 w2 : Bool) (n x column x' : ℕ)
    → w1 ≡ (if x' == x + column && in_row then inked (bit column) black opaque w0 else w0)
    → w2 ≡ (
        if leb (x + (column + 1)) x' && ltb x' (x + (column + 1) + n) && in_row
        then inked (bit (x' - x)) black opaque w1
        else w1)
    → w2 ≡ (
        if leb (x + column) x' && ltb x' (x + column + suc n) && in_row
        then inked (bit (x' - x)) black opaque w0
        else w0)
columns_step bit black opaque in_row w0 w1 w2 n x column x' e1 e2 = ground arith

-- A row drawn before the rows below it.
rows_step :
    (bit : ℕ → Bool) (black opaque in_columns w0 w1 w2 : Bool) (n y row y' : ℕ)
    → w1 ≡ (if in_columns && y' == y + row then inked (bit row) black opaque w0 else w0)
    → w2 ≡ (
        if in_columns && (leb (y + (row + 1)) y' && ltb y' (y + (row + 1) + n))
        then inked (bit (y' - y)) black opaque w1
        else w1)
    → w2 ≡ (
        if in_columns && (leb (y + row) y' && ltb y' (y + row + suc n))
        then inked (bit (y' - y)) black opaque w0
        else w0)
rows_step bit black opaque in_columns w0 w1 w2 n y row y' e1 e2 = ground arith

-- The loops before their first and behind their last round.
no_rows :
    (in_columns a w : Bool) (n y' : ℕ)
    → w ≡ (if in_columns && (leb n y' && ltb y' (n + 0)) then a else w)
no_rows in_columns a w n y' = ground arith

all_columns :
    (in_row a w0 w1 : Bool) (x x' : ℕ)
    → w1 ≡ (if leb (x + 0) x' && ltb x' (x + 0 + font_width) && in_row then a else w0)
    → w1 ≡ (if leb x x' && ltb x' (x + font_width) && in_row then a else w0)
all_columns in_row a w0 w1 x x' e = ground arith

all_rows :
    (in_columns a w0 w1 : Bool) (y y' : ℕ)
    → w1 ≡ (if in_columns && (leb (y + 0) y' && ltb y' (y + 0 + font_height)) then a else w0)
    → w1 ≡ (if in_columns && (leb y y' && ltb y' (y + font_height)) then a else w0)
all_rows in_columns a w0 w1 y y' e = ground arith

module _ (font8x16_ascii : ℕ → ℕ → ℕ) where
  glyph_pixel-IsValid :
      (f : List ℕ) (character row column x y : ℕ) (black opaque : Bool)
      → IsValid f
      → IsValid (glyph_pixel font8x16_ascii character row column x y black opaque f)
  unfolding glyph_pixel
  glyph_pixel-IsValid f character row column x y black opaque v = ground (
    arith,
    framebuffer_pixel-IsValid f (pos (x + column)) (pos (y + row)) black v,
    framebuffer_pixel-IsValid f (pos (x + column)) (pos (y + row)) (not black) v,
  )

  glyph_columns-IsValid :
      (n : ℕ) (f : List ℕ) (character row column x y : ℕ) (black opaque : Bool)
      → IsValid f
      → IsValid (glyph_columns font8x16_ascii n character row column x y black opaque f)
  unfolding glyph_columns
  glyph_columns-IsValid zero f character row column x y black opaque v = v
  glyph_columns-IsValid (suc n) f character row column x y black opaque v =
      glyph_columns-IsValid n (glyph_pixel font8x16_ascii character row column x y black opaque f)
        character row (column + 1) x y black opaque
        (glyph_pixel-IsValid f character row column x y black opaque v)

  module _ {x' y' : ℕ} (hx : x' < panel_width) (hy : y' < panel_height) where
    glyph_pixel-inked :
        (set : Bool) (f : List ℕ) (x y : ℕ) (black opaque : Bool)
        → IsValid f
        → is_white
            (if set
              then framebuffer_pixel (pos x) (pos y) black f
              else if opaque
              then framebuffer_pixel (pos x) (pos y) (not black) f
              else f)
            x'
            y'
          ≡ (if x' == x && y' == y
              then inked set black opaque (is_white f x' y')
              else is_white f x' y')
    glyph_pixel-inked true f x y black opaque v = framebuffer_pixel_lem hx hy f x y black v
    glyph_pixel-inked false f x y true true v = framebuffer_pixel_lem hx hy f x y false v
    glyph_pixel-inked false f x y false true v = framebuffer_pixel_lem hx hy f x y true v
    glyph_pixel-inked false f x y black false v = ground arith

    glyph_pixel_lem :
        (f : List ℕ) (character row column x y : ℕ) (black opaque : Bool)
        → IsValid f
        → is_white (glyph_pixel font8x16_ascii character row column x y black opaque f) x' y' ≡ (
            if x' == x + column && y' == y + row
            then inked
                (is_set column (font8x16_ascii character row))
                black
                opaque
                (is_white f x' y')
            else is_white f x' y')
    unfolding glyph_pixel
    glyph_pixel_lem f character row column x y black opaque v =
        glyph_pixel-inked (is_set column (font8x16_ascii character row)) f (x + column) (y + row)
          black opaque v

    glyph_columns_lem :
        (n : ℕ) (f : List ℕ) (character row column x y : ℕ) (black opaque : Bool)
        → IsValid f
        → is_white (glyph_columns font8x16_ascii n character row column x y black opaque f) x' y'
          ≡ (if leb (x + column) x' && ltb x' (x + column + n) && y' == y + row
              then inked
                  (is_set (x' - x) (font8x16_ascii character row))
                  black
                  opaque
                  (is_white f x' y')
              else is_white f x' y')
    unfolding glyph_columns
    glyph_columns_lem zero f character row column x y black opaque v = ground arith
    glyph_columns_lem (suc n) f character row column x y black opaque v =
        let g = glyph_pixel font8x16_ascii character row column x y black opaque f in
        let gv = glyph_pixel-IsValid f character row column x y black opaque v in
        columns_step (λ c. is_set c (font8x16_ascii character row)) black opaque (y' == y + row)
          (is_white f x' y') (is_white g x' y')
          (is_white (glyph_columns font8x16_ascii n character row (column + 1) x y black opaque g)
            x' y')
          n x column x' (glyph_pixel_lem f character row column x y black opaque v)
          (glyph_columns_lem n g character row (column + 1) x y black opaque gv)

    glyph_rows_lem :
        (n : ℕ) (f : List ℕ) (character row x y : ℕ) (black opaque : Bool)
        → IsValid f
        → is_white (glyph_rows font8x16_ascii n character row x y black opaque f) x' y' ≡ (
            if leb x x' && ltb x' (x + font_width) && (leb (y + row) y' && ltb y' (y + row + n))
            then inked
                (is_set (x' - x) (font8x16_ascii character (y' - y)))
                black
                opaque
                (is_white f x' y')
            else is_white f x' y')
    unfolding glyph_rows
    glyph_rows_lem zero f character row x y black opaque v =
        no_rows (leb x x' && ltb x' (x + font_width))
          (inked (is_set (x' - x) (font8x16_ascii character (y' - y))) black opaque
            (is_white f x' y'))
          (is_white f x' y') (y + row) y'
    glyph_rows_lem (suc n) f character row x y black opaque v =
        let g = glyph_columns font8x16_ascii font_width character row 0 x y black opaque f in
        let gv = glyph_columns-IsValid font_width f character row 0 x y black opaque v in
        rows_step (λ r. is_set (x' - x) (font8x16_ascii character r)) black opaque
          (leb x x' && ltb x' (x + font_width)) (is_white f x' y') (is_white g x' y')
          (is_white (glyph_rows font8x16_ascii n character (row + 1) x y black opaque g) x' y') n y
          row y'
          (all_columns (y' == y + row)
            (inked (is_set (x' - x) (font8x16_ascii character row)) black opaque (is_white f x' y'))
            (is_white f x' y') (is_white g x' y') x x'
            (glyph_columns_lem font_width f character row 0 x y black opaque v))
          (glyph_rows_lem n g character (row + 1) x y black opaque gv)

    -- On a whole framebuffer, a glyph changes exactly the pixels of the panel that lie in its 8 by 16
    -- box: where its bit is set they take its colour, where it is not they take the other colour if
    -- the glyph is opaque and keep their own if not. A character that the font lacks is drawn as `?`.
    pub framebuffer_glyph_lem :
        (f : List ℕ) (x y character : ℕ) (black opaque : Bool)
        → IsValid f
        → is_white (framebuffer_glyph font8x16_ascii x y character black opaque f) x' y' ≡ (
            if leb x x' && ltb x' (x + font_width) && (leb y y' && ltb y' (y + font_height))
            then inked
                (is_set (x' - x) (font8x16_ascii (glyph_index character) (y' - y)))
                black
                opaque
                (is_white f x' y')
            else is_white f x' y')
    unfolding framebuffer_glyph
    framebuffer_glyph_lem f x y character black opaque v =
        all_rows (leb x x' && ltb x' (x + font_width))
          (inked (is_set (x' - x) (font8x16_ascii (glyph_index character) (y' - y))) black opaque
            (is_white f x' y'))
          (is_white f x' y')
          (is_white
            (glyph_rows font8x16_ascii font_height (glyph_index character) 0 x y black opaque f) x'
            y')
          y y' (glyph_rows_lem font_height f (glyph_index character) 0 x y black opaque v)
