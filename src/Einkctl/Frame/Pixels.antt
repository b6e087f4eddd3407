-- ===== src/Einkctl/Frame/Pixels.antt =====
-- What drawing does to each pixel of the panel.
use esp32_fx.Einkctl.Frame.Bits.{is_set-write_bit}
use esp32_fx.Einkctl.Frame.{
  panel_width, panel_height, framebuffer_bytes, is_set, write_bit, framebuffer_pixel, rect_columns,
  rect_rows, framebuffer_rect,
}
use esp32_fx.Prelude.{
  ℕ, zero, suc, ◌+◌, ◌*◌, ◌/◌, ◌%◌, ◌<◌, ◌≡◌, Bool, not, ◌&&◌, List, length, get_or, get_or-set,
  length-set, ltb, leb, ◌==◌, if◌then◌else◌, arith, ℤ, pos, negsuc,
}

-- A framebuffer has a bit for each pixel; the pixel is white where the bit is set.
abbrev pub IsValid : List ℕ → Type 0
IsValid framebuffer = length framebuffer ≡ framebuffer_bytes

abbrev pub byte_index : ℕ → ℕ → ℕ
byte_index x y = y * (panel_width / 8) + x / 8

pub is_white : List ℕ → ℕ → ℕ → Bool
is_white framebuffer x y = is_set (x % 8) (get_or framebuffer (byte_index x y) 0)

pub framebuffer_pixel-IsValid :
    (f : List ℕ) (x y : ℤ) (black : Bool) → IsValid f → IsValid (framebuffer_pixel x y black f)
unfolding framebuffer_pixel
framebuffer_pixel-IsValid f (pos x) (pos y) black v =
    ground
      (arith, length-set f (byte_index x y) (write_bit black (x % 8) (get_or f (byte_index x y) 0)))
framebuffer_pixel-IsValid f (negsuc x) y black v = v
framebuffer_pixel-IsValid f (pos x) (negsuc y) black v = v

rect_columns-IsValid :
    (n : ℕ) (f : List ℕ) (x y : ℕ) (black : Bool) → IsValid f → IsValid (rect_columns n x y black f)
unfolding rect_columns
rect_columns-IsValid zero f x y black v = v
rect_columns-IsValid (suc n) f x y black v =
    rect_columns-IsValid n (framebuffer_pixel (pos x) (pos y) black f) (x + 1) y black
      (framebuffer_pixel-IsValid f (pos x) (pos y) black v)

module _ {x' y' : ℕ} (hx : x' < panel_width) (hy : y' < panel_height) where
  -- A drawn pixel has the colour asked for, and every other pixel keeps its own.
  pub framebuffer_pixel_lem :
      (f : List ℕ) (x y : ℕ) (black : Bool)
      → IsValid f
      → is_white (framebuffer_pixel (pos x) (pos y) black f) x' y'
        ≡ (if x' == x && y' == y then not black else is_white f x' y')
  unfolding framebuffer_pixel is_white
  framebuffer_pixel_lem f x y black v =
      let i = byte_index x y in
      let b = get_or f i 0 in
      ground (
        arith,
        get_or-set f i (byte_index x' y') (write_bit black (x % 8) b) 0,
        is_set-write_bit black b {k = x % 8} {j = x' % 8} (omega arith) (omega arith),
      )

  rect_columns_lem :
      (n : ℕ) (f : List ℕ) (x y : ℕ) (black : Bool)
      → IsValid f
      → is_white (rect_columns n x y black f) x' y'
        ≡ (if leb x x' && ltb x' (x + n) && y' == y then not black else is_white f x' y')
  unfolding rect_columns
  rect_columns_lem zero f x y black v = ground arith
  rect_columns_lem (suc n) f x y black v =
      let g = framebuffer_pixel (pos x) (pos y) black f in
      ground (
        arith,
        rect_columns_lem n g (x + 1) y black (framebuffer_pixel-IsValid f (pos x) (pos y) black v),
        framebuffer_pixel_lem f x y black v,
      )

  rect_rows_lem :
      (n : ℕ) (f : List ℕ) (x y width : ℕ) (black : Bool)
      → IsValid f
      → is_white (rect_rows n x y width black f) x' y' ≡ (
          if leb x x' && ltb x' (x + width) && (leb y y' && ltb y' (y + n))
          then not black
          else is_white f x' y')
  unfolding rect_rows
  rect_rows_lem zero f x y width black v = ground arith
  rect_rows_lem (suc n) f x y width black v =
      let g = rect_columns width x y black f in
      ground (
        arith,
        rect_rows_lem n g x (y + 1) width black (rect_columns-IsValid width f x y black v),
        rect_columns_lem width f x y black v,
      )

  -- On a whole framebuffer, a rectangle gives its colour to exactly the pixels of the panel that lie
  -- in it; the part beyond the panel's edge is left out.
  pub framebuffer_rect_lem :
      (f : List ℕ) (x y width height : ℕ) (black : Bool)
      → IsValid f
      → is_white (framebuffer_rect x y width height black f) x' y' ≡ (
          if leb x x' && ltb x' (x + width) && (leb y y' && ltb y' (y + height))
          then not black
          else is_white f x' y')
  unfolding framebuffer_rect
  framebuffer_rect_lem f x y width height black v = rect_rows_lem height f x y width black v
