-- ===== src/Einkctl/Page.antt =====
-- runtime/einkctl.c: `render_text`, a page of text in the framebuffer. `malloc` and `realloc` (by
-- the sizes they have memory for), the font and `snprintf` are parameters.
pub mod Pages
mod Tests
use esp32_fx.Einkctl.Frame.{
  panel_width, font_height, framebuffer_bytes, framebuffer_rect, framebuffer_text,
}
use esp32_fx.Einkctl.Sanitize.{sanitize_text}
use esp32_fx.Einkctl.Wrap.{TextLines, no_lines, wrap_text}
use esp32_fx.Prelude.{
  ℕ, zero, suc, ◌+◌, ◌-◌, ◌*◌, ◌/◌, Bool, true, false, Option, none, some, List, [], ◌∷◌, length,
  take, drop, replicate, ltb, leb, ◌==◌, ◌>>=◌, if◌then◌else◌, add_size, mul_size, sub_size,
}

-- `(BODY_BOTTOM - BODY_Y) / FONT_HEIGHT`
abbrev pub text_rows : ℕ
text_rows = (448 - 32) / font_height

-- What is drawn of the footer; `none` is a failure of `snprintf`.
pub footer_text : Option (List ℕ) → List ℕ
footer_text none = []
footer_text (some made) = take 63 made

-- `pages`
pub page_count : List (List ℕ) → ℕ
page_count lines =
    let pages = sub_size (add_size (length lines) text_rows) 1 / text_rows in
    if pages == 0 then 1 else pages

-- The rows from `first_line` on, `visible` of them.
pub visible_lines : ℕ → List (List ℕ) → List (List ℕ)
visible_lines page lines =
    let first_line = mul_size page text_rows in
    let rest = sub_size (length lines) first_line in
    take (if ltb text_rows rest then text_rows else rest) (drop first_line lines)

module _ (font8x16_ascii : ℕ → ℕ → ℕ) where
  -- The loop over the rows of a page.
  pub draw_lines : ℕ → List (List ℕ) → List ℕ → List ℕ
  draw_lines row [] framebuffer = framebuffer
  draw_lines row (line ∷ lines) framebuffer =
      draw_lines (row + 1) lines
        (framebuffer_text font8x16_ascii 8 (32 + row * font_height) line true false framebuffer)

  -- What is drawn of a page; `footer` is what `snprintf` made.
  pub draw_page : List ℕ → List (List ℕ) → Option (List ℕ) → List ℕ
  draw_page title lines footer =
      let blank = replicate framebuffer_bytes 0xff in
      let bar = framebuffer_rect 0 0 panel_width 24 true blank in
      let titled = framebuffer_text font8x16_ascii 8 4 (take 96 title) false true bar in
      let ruled = framebuffer_rect 0 24 panel_width 1 true titled in
      let body = draw_lines 0 lines ruled in
      let closed = framebuffer_rect 0 (448 + 7) panel_width 1 true body in
      framebuffer_text font8x16_ascii 8 460 (footer_text footer) true false closed

  module _ (has_memory : ℕ → Bool) (snprintf : ℕ → ℕ → Option (List ℕ)) where
    -- The framebuffer and the number of pages; `none` is the result -1.
    pub render_text : List ℕ → List ℕ → ℕ → Option (List ℕ × ℕ)
    render_text input title page =
        if has_memory (add_size (mul_size (length input) 4) 1)
        then (do
          table ← wrap_text has_memory (sanitize_text input) no_lines
          let pages = page_count table.lines
          if leb pages page
              then none
              else some (
                draw_page title (visible_lines page table.lines) (snprintf (page + 1) pages),
                pages,
              ))
        else none
