-- ===== src/Einkctl/Wrap/Tests.antt =====
-- `wrap_text` on concrete text.
use esp32_fx.Einkctl.Wrap.Content.{all_ink, ink, all_ink-layout}
use esp32_fx.Einkctl.Wrap.Layout.{layout, wrap_text_lem}
use esp32_fx.Einkctl.Wrap.Lines.{line_take-split_at}
use esp32_fx.Einkctl.Wrap.{
  no_lines, wrap_text, line_take, split_at, find_space, first_take, after_line, skip_spaces,
}
use esp32_fx.Prelude.{ℕ, ◌≡◌, refl, Bool, true, some, List, [], ◌∷◌, ◌++◌, replicate, arith}

always : ℕ → Bool
always n = true

-- A line and an empty line.
abbrev short_text : List ℕ
short_text = b'h' ∷ b'i' ∷ b'\n' ∷ []

-- Sixty letters, a space, and sixty letters more.
abbrev long_text : List ℕ
long_text = replicate 60 b'a' ++ (b' ' ∷ replicate 60 b'b')

short_layout : layout short_text ≡ (b'h' ∷ b'i' ∷ []) ∷ [] ∷ []
unfolding split_at find_space first_take after_line line_take skip_spaces
short_layout = refl

long_layout : layout long_text ≡ replicate 60 b'a' ∷ replicate 60 b'b' ∷ []
unfolding split_at find_space first_take after_line line_take skip_spaces
long_layout = refl

wrap_text_lem_example :
    (c : ℕ) × (wrap_text always short_text no_lines
      ≡ some (record { lines = layout short_text; capacity = c }))
unfolding always
wrap_text_lem_example = wrap_text_lem always (λ n. refl) short_text

all_ink-layout_example : all_ink (layout long_text) ≡ ink long_text
all_ink-layout_example = all_ink-layout long_text

line_take-split_at_example : line_take long_text ≡ split_at long_text
line_take-split_at_example = line_take-split_at long_text (omega arith)
