-- ===== src/Einkctl/Wrap/Lines.antt =====
-- The rows of one physical line: what `wrap_line` pushes, its bound and its width.
use esp32_fx.Einkctl.Wrap.{
  TextLines, text_columns, lines_reserve, lines_push, double_rows, find_space, first_take, split_at,
  line_take, skip_spaces, after_line, wrap_line,
}
use esp32_fx.Prelude.{
  ℕ, zero, suc, ◌+◌, ◌≤◌, ◌<◌, ◌≡◌, refl, sym, ap, Bool, true, inl, inr, some, List, [], ◌∷◌, ◌++◌,
  length, take, drop, length-drop, take-take, append_assoc, append-nil, leb, mul_size, ◌==◌,
  if◌then◌else◌, arith, Bool-cases,
}

find_space-le : (n : ℕ) (text : List ℕ) → find_space n text ≤ n
unfolding find_space
find_space-le zero text = omega arith
find_space-le (suc n) text = ground (arith, find_space-le n text)

-- A break lies behind the first byte and not behind the text or the last column.
pub split_at_lem :
    (text : List ℕ)
    → 0 < length text
    → (0 < split_at text) × (split_at text ≤ length text) × (split_at text ≤ text_columns)
unfolding split_at first_take
split_at_lem text h =
    ground (arith, find_space-le text_columns text, find_space-le (length text) text)

-- The number of bytes pushed for a line is the break, so its trailing spaces stay: the loop that
-- counts them off has no effect.
pub line_take-split_at : (text : List ℕ) → 0 < length text → line_take text ≡ split_at text
unfolding line_take
line_take-split_at text h = ground (arith, split_at_lem text h)

skip_spaces_shorter : (text : List ℕ) → length (skip_spaces text) ≤ length text
unfolding skip_spaces
skip_spaces_shorter [] = omega arith
skip_spaces_shorter (byte ∷ text) = ground (arith, skip_spaces_shorter text)

pub after_line-eq :
    (text : List ℕ) → 0 < length text → after_line text ≡ skip_spaces (drop (split_at text) text)
unfolding after_line
after_line-eq text h = ground (arith, split_at_lem text h)

pub after_line_shorter : (text : List ℕ) → 0 < length text → length (after_line text) < length text
after_line_shorter text h = rw (after_line-eq text h) (
    omega (
      arith,
      skip_spaces_shorter (drop (split_at text) text),
      length-drop (split_at text) text,
      split_at_lem text h,
    ))

-- The rows of a physical line.
abbrev pub rows : ℕ → List ℕ → List (List ℕ)
rows zero text = []
rows (suc fuel) [] = []
rows (suc fuel) (byte ∷ rest) =
    take (split_at (byte ∷ rest)) (byte ∷ rest) ∷ rows fuel (after_line (byte ∷ rest))

module _ (has_memory : ℕ → Bool) (memory : (n : ℕ) → has_memory n ≡ true) where
  pub lines_push_lem :
      (text : List ℕ) (table : TextLines)
      → (c : ℕ) × (lines_push has_memory text table
          ≡ some (record { lines = table.lines ++ (take text_columns text ∷ []); capacity = c }))
  unfolding lines_push lines_reserve
  lines_push_lem text table =
      let wanted = length table.lines + 1 in
      let capacity = double_rows 32 (if table.capacity == 0 then 64 else table.capacity) wanted in
      elim (Bool-cases (leb wanted table.capacity)) [
        | inl room ↦ (table.capacity, rw room refl)
        | inr grows ↦ (capacity, rw (grows, memory (mul_size capacity (text_columns + 1))) refl)
      ]

  pub wrap_line_lem :
      (fuel : ℕ) (text : List ℕ) (table : TextLines)
      → length text < fuel
      → (c : ℕ) × (wrap_line has_memory fuel text table
          ≡ some (record { lines = table.lines ++ rows fuel text; capacity = c }))
  unfolding wrap_line
  wrap_line_lem zero text table h = absurd (omega arith)
  wrap_line_lem (suc fuel) [] table h = (
    table.capacity,
    ap (λ ls. some (record { lines = ls; capacity = table.capacity }))
        (sym (append-nil table.lines)),
  )
  wrap_line_lem (suc fuel) (byte ∷ rest) table h =
      let text : List ℕ = byte ∷ rest in
      let s = split_at_lem text (omega arith) in
      let row : take text_columns (take (line_take text) text) ≡ take (split_at text) text =
        rw (line_take-split_at text (omega arith))
          (take-take text_columns (split_at text) (split_at text) text (omega arith)) in
      let (c, pushed) = lines_push_lem (take (line_take text) text) table in
      let (d, later) =
        wrap_line_lem fuel (after_line text)
          (record { lines = table.lines ++ (take (split_at text) text ∷ []); capacity = c })
          (omega (arith, after_line_shorter text (omega arith))) in
      (
        d,
        rw (pushed, row, later)
            (ap (λ ls. some (record { lines = ls; capacity = d }))
              (append_assoc table.lines (take (split_at text) text ∷ [])
                (rows fuel (after_line text)))),
      )
