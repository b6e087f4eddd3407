-- ===== src/Einkctl/Wrap/Layout.antt =====
-- `wrap_text` against a description of the layout: the text is cut at its newlines, and each of the
-- pieces is broken into rows.
use esp32_fx.Einkctl.Wrap.Lines.{rows, lines_push_lem, wrap_line_lem}
use esp32_fx.Einkctl.Wrap.{
  TextLines, no_lines, physical_line, next_line, ends_open, wrap_physical, wrap_lines, wrap_text,
}
use esp32_fx.Prelude.{
  ℕ, zero, suc, ◌<◌, ◌≡◌, ◌⊎◌, refl, sym, ap, ◌∙◌, Bool, true, false, inl, inr, some, List, [], ◌∷◌,
  ◌++◌, length, append_assoc, append-nil, ◌==◌, if◌then◌else◌, arith, Bool-cases,
}

abbrev pub prepend : ℕ → List (List ℕ) → List (List ℕ)
prepend byte [] = (byte ∷ []) ∷ []
prepend byte (line ∷ lines) = (byte ∷ line) ∷ lines

-- The text cut at its newlines: always one piece more than there are newlines.
abbrev pub split_lines : List ℕ → List (List ℕ)
split_lines [] = [] ∷ []
split_lines (byte ∷ text) =
    if byte == b'\n' then [] ∷ split_lines text else prepend byte (split_lines text)

-- A piece makes at least one row.
abbrev pub piece_rows : List ℕ → List (List ℕ)
piece_rows [] = [] ∷ []
piece_rows (byte ∷ rest) = rows (suc (suc (length rest))) (byte ∷ rest)

abbrev pub laid_out : List (List ℕ) → List (List ℕ)
laid_out [] = []
laid_out (piece ∷ pieces) = piece_rows piece ++ laid_out pieces

abbrev pub layout : List ℕ → List (List ℕ)
layout text = laid_out (split_lines text)

-- The first physical line and the rest of the pieces.
line-cases :
    (byte : ℕ) (rest : List ℕ)
    → let text : List ℕ = byte ∷ rest in
      ((split_lines text ≡ physical_line text ∷ split_lines (next_line text))
        × (ends_open text ≡ ends_open (next_line text)))
      ⊎ ((split_lines text ≡ physical_line text ∷ [])
          × (next_line text ≡ [])
          × (ends_open text ≡ false))
unfolding physical_line next_line ends_open
line-cases byte [] = ground arith
line-cases byte (next ∷ rest) = ground (arith, line-cases next rest)

next_line_shorter : (text : List ℕ) → 0 < length text → length (next_line text) < length text
unfolding next_line
next_line_shorter [] h = absurd (omega arith)
next_line_shorter (byte ∷ []) h = ground arith
next_line_shorter (byte ∷ next ∷ rest) h = ground (arith, next_line_shorter (next ∷ rest))

-- The rows that `wrap_lines` pushes, and the row that `wrap_text` adds behind them.
body : ℕ → List ℕ → List (List ℕ)
body zero text = []
body (suc fuel) [] = []
body (suc fuel) (byte ∷ rest) =
    piece_rows (physical_line (byte ∷ rest)) ++ body fuel (next_line (byte ∷ rest))

last_row : List ℕ → List (List ℕ)
last_row text = if ends_open text then [] ∷ [] else []

body-nil : (fuel : ℕ) → body fuel [] ≡ []
unfolding body
body-nil zero = refl
body-nil (suc fuel) = refl

last_row-eq :
    (text : List ℕ) {b : Bool} → ends_open text ≡ b → last_row text ≡ (if b then [] ∷ [] else [])
unfolding last_row
last_row-eq text e = ap (λ b. if b then [] ∷ [] else []) e

body-layout :
    (fuel : ℕ) (text : List ℕ) → length text < fuel → body fuel text ++ last_row text ≡ layout text
unfolding body
body-layout zero text h = absurd (omega arith)
body-layout (suc fuel) [] h = unfold last_row ends_open in refl
body-layout (suc fuel) (byte ∷ rest) h =
    let text : List ℕ = byte ∷ rest in
    let later = next_line text in
    let line = piece_rows (physical_line text) in
    let ih = body-layout fuel later (omega (arith, next_line_shorter text (omega arith))) in
    elim (line-cases byte rest) [
      | inl (pieces, opened) ↦
          append_assoc line (body fuel later) (last_row text)
          ∙ ap (λ ls. line ++ (body fuel later ++ ls))
              (last_row-eq text opened ∙ sym (last_row-eq later refl))
          ∙ ap (λ ls. line ++ ls) ih
          ∙ sym (ap laid_out pieces)
      | inr (pieces, end, closed) ↦
          append_assoc line (body fuel later) (last_row text)
          ∙ ap (λ ls. line ++ ls)
              (ap (λ ls. ls ++ last_row text) (ap (body fuel) end ∙ body-nil fuel)
                ∙ last_row-eq text closed)
          ∙ sym (ap laid_out pieces)
    ]

module _ (has_memory : ℕ → Bool) (memory : (n : ℕ) → has_memory n ≡ true) where
  wrap_physical_lem :
      (text : List ℕ) (table : TextLines)
      → (c : ℕ) × (wrap_physical has_memory text table
          ≡ some (record { lines = table.lines ++ piece_rows text; capacity = c }))
  unfolding wrap_physical
  wrap_physical_lem [] table = lines_push_lem has_memory memory [] table
  wrap_physical_lem (byte ∷ rest) table =
      wrap_line_lem has_memory memory (suc (suc (length rest))) (byte ∷ rest) table (omega arith)

  wrap_lines_lem :
      (fuel : ℕ) (text : List ℕ) (table : TextLines)
      → length text < fuel
      → (c : ℕ) × (wrap_lines has_memory fuel text table
          ≡ some (record { lines = table.lines ++ body fuel text; capacity = c }))
  unfolding wrap_lines body
  wrap_lines_lem zero text table h = absurd (omega arith)
  wrap_lines_lem (suc fuel) [] table h = (
    table.capacity,
    ap (λ ls. some (record { lines = ls; capacity = table.capacity }))
        (sym (append-nil table.lines)),
  )
  wrap_lines_lem (suc fuel) (byte ∷ rest) table h =
      let line = physical_line (byte ∷ rest) in
      let later = next_line (byte ∷ rest) in
      let (c, first) = wrap_physical_lem line table in
      let (d, others) =
        wrap_lines_lem fuel later (record { lines = table.lines ++ piece_rows line; capacity = c })
          (omega (arith, next_line_shorter (byte ∷ rest) (omega arith))) in
      (
        d,
        rw (first, others)
            (ap (λ ls. some (record { lines = ls; capacity = d }))
              (append_assoc table.lines (piece_rows line) (body fuel later))),
      )

  -- While memory lasts, `wrap_text` succeeds on every text and fills an empty table with the layout:
  -- the rows of the pieces between newlines, in order, an empty row for an empty piece.
  pub wrap_text_lem :
      (text : List ℕ)
      → (c : ℕ) × (wrap_text has_memory text no_lines
          ≡ some (record { lines = layout text; capacity = c }))
  unfolding wrap_text
  wrap_text_lem text =
      let (c, first) = wrap_lines_lem (suc (length text)) text no_lines (omega arith) in
      let pushed = body (suc (length text)) text in
      let all = body-layout (suc (length text)) text (omega arith) in
      elim (Bool-cases (ends_open text)) [
        | inl opened ↦
            let (d, last) =
              lines_push_lem has_memory memory [] (record { lines = pushed; capacity = c }) in
            (
              d,
              rw (first, opened, last)
                  (ap (λ ls. some (record { lines = ls; capacity = d }))
                    (ap (λ ls. pushed ++ ls) (sym (last_row-eq text opened)) ∙ all)),
            )
        | inr closed ↦ (
          c,
          rw (first, closed)
              (ap (λ ls. some (record { lines = ls; capacity = c }))
                (sym (append-nil pushed)
                  ∙ ap (λ ls. pushed ++ ls) (sym (last_row-eq text closed))
                  ∙ all)),
        )
      ]
