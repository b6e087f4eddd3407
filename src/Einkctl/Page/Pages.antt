-- ===== src/Einkctl/Page/Pages.antt =====
-- The pages of a text: which exist, and what they show together.
use esp32_fx.Einkctl.Page.{text_rows, page_count, visible_lines, draw_page, render_text}
use esp32_fx.Einkctl.Sanitize.{sanitize_text}
use esp32_fx.Einkctl.Wrap.Layout.{layout, wrap_text_lem}
use esp32_fx.Prelude.{
  ℕ, zero, suc, ◌+◌, ◌*◌, ◌-◌, ◌≤◌, ◌<◌, ◌≡◌, refl, ap, ◌∙◌, Bool, true, Option, none, some, List,
  [], ◌∷◌, ◌++◌, length, take, drop, take_all, take-nil, min, leb, if◌then◌else◌, arith, word,
  mul_size, add_size,
}

-- The rows that the first `n` pages show, one page after the other.
abbrev pub shown : ℕ → List (List ℕ) → List (List ℕ)
shown zero lines = []
shown (suc n) lines = shown n lines ++ visible_lines n lines

take_part :
    (n m k : ℕ) (lines : List (List ℕ))
    → n + m ≡ k
    → take n lines ++ take m (drop n lines) ≡ take k lines
take_part zero m k lines e = ap (λ i. take i lines) (omega arith)
take_part (suc n) m zero lines e = absurd (omega arith)
take_part (suc n) m (suc k) [] e = take-nil m
take_part (suc n) m (suc k) (line ∷ lines) e =
    ap (λ ls. line ∷ ls) (take_part n m k lines (omega arith))

page_count_lem :
    (lines : List (List ℕ))
    → length lines + text_rows < word
    → (0 < page_count lines)
      × (length lines ≤ text_rows * page_count lines)
      × (text_rows * page_count lines < length lines + text_rows + 1)
unfolding page_count
page_count_lem lines h = ground arith

visible_lines-eq :
    (n : ℕ) (lines : List (List ℕ))
    → n * text_rows ≤ length lines
    → length lines < word
    → visible_lines n lines
      ≡ take (min text_rows (length lines - n * text_rows)) (drop (n * text_rows) lines)
unfolding visible_lines
visible_lines-eq n lines h small = ground arith

shown-take :
    (n : ℕ) (lines : List (List ℕ))
    → n * text_rows ≤ length lines + text_rows
    → length lines + text_rows < word
    → shown n lines ≡ take (min (n * text_rows) (length lines)) lines
shown-take zero lines h small =
    let start : 0 ≡ min (0 * text_rows) (length lines) = omega arith in ap (λ i. take i lines) start
shown-take (suc n) lines h small =
    let start : min (n * text_rows) (length lines) ≡ n * text_rows = omega arith in
    let ih : shown n lines ≡ take (n * text_rows) lines =
      shown-take n lines (omega arith) small ∙ ap (λ i. take i lines) start in
    ap (λ ls. ls ++ visible_lines n lines) ih
    ∙ ap (λ ls. take (n * text_rows) lines ++ ls)
        (visible_lines-eq n lines (omega arith) (omega arith))
    ∙ take_part (n * text_rows) (min text_rows (length lines - n * text_rows))
        (min (suc n * text_rows) (length lines)) lines (omega arith)

-- The pages of a text of fewer than 2^32 - 26 rows, one after the other, show every row of its
-- layout once and in order.
pub shown_all :
    (lines : List (List ℕ))
    → length lines + text_rows < word
    → shown (page_count lines) lines ≡ lines
shown_all lines small =
    let c = page_count_lem lines small in
    shown-take (page_count lines) lines (omega arith) small
    ∙ take_all (min (page_count lines * text_rows) (length lines)) lines (omega arith)

module _ (font8x16_ascii : ℕ → ℕ → ℕ) (has_memory : ℕ → Bool)
    (memory : (n : ℕ) → has_memory n ≡ true) (snprintf : ℕ → ℕ → Option (List ℕ)) where
  -- While memory lasts, `render_text` draws the rows of the page asked for and returns the number of
  -- pages if the text has that page, and fails if it has not.
  pub render_text_lem :
      (input title : List ℕ) (page : ℕ)
      → let lines = layout (sanitize_text input) in
        let pages = page_count lines in
        render_text font8x16_ascii has_memory snprintf input title page ≡ (
          if leb pages page
          then none
          else some (
            draw_page font8x16_ascii title (visible_lines page lines) (snprintf (page + 1) pages),
            pages,
          ))
  unfolding render_text
  render_text_lem input title page =
      let (c, wrapped) = wrap_text_lem has_memory memory (sanitize_text input) in
      rw (memory (add_size (mul_size (length input) 4) 1), wrapped) refl
