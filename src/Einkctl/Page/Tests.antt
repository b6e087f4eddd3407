-- ===== src/Einkctl/Page/Tests.antt =====
-- The pages of a concrete text.
use esp32_fx.Einkctl.Page.Pages.{shown, shown_all}
use esp32_fx.Einkctl.Page.{page_count}
use esp32_fx.Prelude.{ℕ, ◌≡◌, refl, Bool, true, Option, none, List, [], ◌∷◌, replicate, arith}

always : ℕ → Bool
always n = true

plain_font : ℕ → ℕ → ℕ
plain_font character row = 0x18

no_footer : ℕ → ℕ → Option (List ℕ)
no_footer page pages = none

-- Thirty rows: two pages.
abbrev thirty_rows : List (List ℕ)
thirty_rows = replicate 30 (b'a' ∷ [])

two_pages : page_count thirty_rows ≡ 2
unfolding page_count
two_pages = refl

shown_all_example : shown (page_count thirty_rows) thirty_rows ≡ thirty_rows
shown_all_example = shown_all thirty_rows (omega arith)
