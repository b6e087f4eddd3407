-- ===== src/Einkctl/Wrap/Content.antt =====
-- What the layout of a text keeps: its characters, its width, and lines that fit.
use esp32_fx.Einkctl.Wrap.Layout.{prepend, split_lines, piece_rows, laid_out, layout}
use esp32_fx.Einkctl.Wrap.Lines.{rows, split_at_lem, after_line-eq, after_line_shorter}
use esp32_fx.Einkctl.Wrap.{text_columns, split_at, first_take, after_line, skip_spaces}
use esp32_fx.Prelude.{
  ℕ, zero, suc, ◌≤◌, ◌<◌, ◌≡◌, refl, sym, ap, ◌∙◌, List, [], ◌∷◌, ◌++◌, length, take, drop,
  length-take, take_all, drop_all, take-append-drop, append_assoc, append-nil, All, All-append,
  ◌==◌, ◌||◌, if◌then◌else◌, arith,
}

-- The characters of a text that leave ink.
abbrev pub ink : List ℕ → List ℕ
ink [] = []
ink (byte ∷ text) = if byte == b' ' || byte == b'\n' then ink text else byte ∷ ink text

abbrev pub all_ink : List (List ℕ) → List ℕ
all_ink [] = []
all_ink (row ∷ table) = ink row ++ all_ink table

ink-append : (xs ys : List ℕ) → ink (xs ++ ys) ≡ ink xs ++ ink ys
ink-append [] ys = refl
ink-append (x ∷ xs) ys = ground (arith, ink-append xs ys)

all_ink-append : (xs ys : List (List ℕ)) → all_ink (xs ++ ys) ≡ all_ink xs ++ all_ink ys
all_ink-append [] ys = refl
all_ink-append (x ∷ xs) ys =
    ap (λ i. ink x ++ i) (all_ink-append xs ys)
    ∙ sym (append_assoc (ink x) (all_ink xs) (all_ink ys))

ink-skip_spaces : (text : List ℕ) → ink (skip_spaces text) ≡ ink text
unfolding skip_spaces
ink-skip_spaces [] = refl
ink-skip_spaces (byte ∷ text) = ground (arith, ink-skip_spaces text)

all_ink-rows : (fuel : ℕ) (text : List ℕ) → length text < fuel → all_ink (rows fuel text) ≡ ink text
all_ink-rows zero text h = absurd (omega arith)
all_ink-rows (suc fuel) [] h = refl
all_ink-rows (suc fuel) (byte ∷ rest) h =
    let text : List ℕ = byte ∷ rest in
    let row = take (split_at text) text in
    ap (λ i. ink row ++ i)
      (all_ink-rows fuel (after_line text) (omega (arith, after_line_shorter text (omega arith)))
        ∙ ap ink (after_line-eq text (omega arith))
        ∙ ink-skip_spaces (drop (split_at text) text))
    ∙ sym (ink-append row (drop (split_at text) text))
    ∙ ap ink (take-append-drop (split_at text) text)

all_ink-piece_rows : (piece : List ℕ) → all_ink (piece_rows piece) ≡ ink piece
all_ink-piece_rows [] = refl
all_ink-piece_rows (byte ∷ rest) =
    all_ink-rows (suc (suc (length rest))) (byte ∷ rest) (omega arith)

all_ink-laid_out : (pieces : List (List ℕ)) → all_ink (laid_out pieces) ≡ all_ink pieces
all_ink-laid_out [] = refl
all_ink-laid_out (piece ∷ pieces) =
    all_ink-append (piece_rows piece) (laid_out pieces)
    ∙ ap (λ i. i ++ all_ink (laid_out pieces)) (all_ink-piece_rows piece)
    ∙ ap (λ i. ink piece ++ i) (all_ink-laid_out pieces)

all_ink-prepend :
    (byte : ℕ) (pieces : List (List ℕ))
    → all_ink (prepend byte pieces) ≡ ink (byte ∷ []) ++ all_ink pieces
all_ink-prepend byte [] = ground (arith, append-nil (ink (byte ∷ [])))
all_ink-prepend byte (piece ∷ pieces) = ground arith

all_ink-split_lines : (text : List ℕ) → all_ink (split_lines text) ≡ ink text
all_ink-split_lines [] = refl
all_ink-split_lines (byte ∷ text) =
    ground (arith, all_ink-split_lines text, all_ink-prepend byte (split_lines text))

-- No character of a text but its spaces and newlines is lost in the rows of its layout, and their
-- order is kept.
pub all_ink-layout : (text : List ℕ) → all_ink (layout text) ≡ ink text
all_ink-layout text = all_ink-laid_out (split_lines text) ∙ all_ink-split_lines text

abbrev pub FitsRow : List ℕ → Type 0
FitsRow row = length row ≤ text_columns

rows-FitsRow : (fuel : ℕ) (text : List ℕ) → All FitsRow (rows fuel text)
rows-FitsRow zero text = ground arith
rows-FitsRow (suc fuel) [] = ground arith
rows-FitsRow (suc fuel) (byte ∷ rest) = (
  omega (
    arith,
    length-take (split_at (byte ∷ rest)) (byte ∷ rest),
    split_at_lem (byte ∷ rest) (omega arith),
  ),
  rows-FitsRow fuel (after_line (byte ∷ rest)),
)

laid_out-FitsRow : (pieces : List (List ℕ)) → All FitsRow (laid_out pieces)
laid_out-FitsRow [] = ground arith
laid_out-FitsRow ([] ∷ pieces) = (omega arith, laid_out-FitsRow pieces)
laid_out-FitsRow ((byte ∷ rest) ∷ pieces) =
    All-append FitsRow (piece_rows (byte ∷ rest)) (laid_out pieces)
      (rows-FitsRow (suc (suc (length rest))) (byte ∷ rest)) (laid_out-FitsRow pieces)

-- Every row of a layout fits the 98 columns of the panel.
pub layout-FitsRow : (text : List ℕ) → All FitsRow (layout text)
layout-FitsRow text = laid_out-FitsRow (split_lines text)

split_at_short : (text : List ℕ) → length text ≤ text_columns → split_at text ≡ length text
unfolding split_at first_take
split_at_short text h = ground arith

rows_short :
    (fuel byte : ℕ) (rest : List ℕ)
    → FitsRow (byte ∷ rest)
    → rows (suc (suc fuel)) (byte ∷ rest) ≡ (byte ∷ rest) ∷ []
rows_short fuel byte rest h =
    let text : List ℕ = byte ∷ rest in
    let n = split_at_short text h in
    let end : after_line text ≡ [] =
      after_line-eq text (omega arith)
      ∙ ap skip_spaces (drop_all (split_at text) text (omega arith))
      ∙ unfold skip_spaces in refl in
    let row : take (split_at text) text ≡ text = take_all (split_at text) text (omega arith) in
    rw (end, row) refl

laid_out_short : (pieces : List (List ℕ)) → All FitsRow pieces → laid_out pieces ≡ pieces
laid_out_short [] h = refl
laid_out_short ([] ∷ pieces) h = ap (λ ls. [] ∷ ls) (laid_out_short pieces h.1)
laid_out_short ((byte ∷ rest) ∷ pieces) h =
    ap (λ ls. ls ++ laid_out pieces) (rows_short (length rest) byte rest h.0)
    ∙ ap (λ ls. (byte ∷ rest) ∷ ls) (laid_out_short pieces h.1)

-- Text whose lines all fit the panel is laid out line by line as it stands.
pub layout_short : (text : List ℕ) → All FitsRow (split_lines text) → layout text ≡ split_lines text
layout_short text h = laid_out_short (split_lines text) h
