-- ===== src/Einkctl/Wrap.antt =====
-- runtime/einkctl.c: `wrap_text`, which breaks text into lines of at most 98 columns, and the table
-- of lines that it fills. Whether `realloc` finds the memory for a given size is a parameter.
pub mod Lines
pub mod Layout
pub mod Content
mod Tests
use esp32_fx.Prelude.{
  ℕ, zero, suc, ◌+◌, ◌-◌, ◌*◌, ◌/◌, Bool, true, false, not, ◌&&◌, ◌||◌, Option, none, some, List,
  [], ◌∷◌, ◌++◌, length, get_or, take, drop, ltb, leb, ◌==◌, ◌>>=◌, if◌then◌else◌, mul_size,
}

-- `BODY_WIDTH / FONT_WIDTH`
abbrev pub text_columns : ℕ
text_columns = (800 - 2 * 8) / 8

-- `lines` are the rows behind `data`, each up to its NUL; `count` is their number.
pub record TextLines : Type 0 where
  pub lines : List (List ℕ)
  pub capacity : ℕ

abbrev pub no_lines : TextLines
no_lines = record { lines = []; capacity = 0 }

-- The loop of `lines_reserve`, at most `fuel` rounds; 32 double any word past its end.
pub double_rows : ℕ → ℕ → ℕ → ℕ
double_rows zero capacity wanted = capacity
double_rows (suc fuel) capacity wanted =
    let rest = double_rows fuel (mul_size capacity 2) wanted in
    if ltb capacity wanted then rest else capacity

module _ (has_memory : ℕ → Bool) where
  pub lines_reserve : ℕ → TextLines → Option TextLines
  lines_reserve wanted table =
      let capacity = double_rows 32 (if table.capacity == 0 then 64 else table.capacity) wanted in
      if leb wanted table.capacity
      then some table
      else if has_memory (mul_size capacity (text_columns + 1))
      then some (record table { capacity = capacity })
      else none

  -- `none` is the result -1.
  pub lines_push : List ℕ → TextLines → Option TextLines
  lines_push text table = do
    reserved ← lines_reserve (length table.lines + 1) table
    some (record reserved { lines = reserved.lines ++ (take text_columns text ∷ []) })

-- What is left of a physical line is the list of its bytes from `cursor` on.
-- The last space at `split` or before it, and 0 if there is none.
pub find_space : ℕ → List ℕ → ℕ
find_space zero text = 0
find_space (suc split) text =
    let before = find_space split text in
    if get_or text (suc split) 0 == b' ' then suc split else before

-- `take`, before its trailing spaces are counted off
pub first_take : List ℕ → ℕ
first_take text = if ltb text_columns (length text) then text_columns else length text

-- `split`, after its loop
pub split_at : List ℕ → ℕ
split_at text =
    let n = first_take text in
    let split = find_space n text in
    if ltb n (length text) then (if ltb split (text_columns / 3) then n else split) else n

-- The loop that counts trailing spaces off.
pub trim_end : ℕ → List ℕ → ℕ
trim_end zero text = 0
trim_end (suc n) text =
    let shorter = trim_end n text in if get_or text n 0 == b' ' then shorter else suc n

-- `take`, as `lines_push` gets it
pub line_take : List ℕ → ℕ
line_take text =
    let split = split_at text in
    let trimmed = trim_end (first_take text) text in
    if not (split == trimmed) && not (split == 0) then split else trimmed

pub skip_spaces : List ℕ → List ℕ
skip_spaces [] = []
skip_spaces (byte ∷ text) =
    let rest = skip_spaces text in if byte == b' ' then rest else byte ∷ text

-- What is left after a line: the cursor moves by `split ? split : take` and past the spaces there.
pub after_line : List ℕ → List ℕ
after_line text =
    let split = split_at text in
    skip_spaces (drop (if split == 0 then line_take text else split) text)

-- The bytes before the first newline, and what `start` leaves: the bytes behind it.
pub physical_line : List ℕ → List ℕ
physical_line [] = []
physical_line (byte ∷ text) =
    let rest = physical_line text in if byte == b'\n' then [] else byte ∷ rest

pub next_line : List ℕ → List ℕ
next_line [] = []
next_line (byte ∷ text) = let rest = next_line text in if byte == b'\n' then text else rest

-- `length == 0 || text[length - 1] == '\n'`
pub ends_open : List ℕ → Bool
ends_open [] = true
ends_open (byte ∷ []) = byte == b'\n'
ends_open (byte ∷ next ∷ text) = ends_open (next ∷ text)

module _ (has_memory : ℕ → Bool) where
  -- The loop over one physical line, at most `fuel` rounds.
  pub wrap_line : ℕ → List ℕ → TextLines → Option TextLines
  wrap_line zero text table = none
  wrap_line (suc fuel) [] table = some table
  wrap_line (suc fuel) (byte ∷ rest) table = do
    let text = byte ∷ rest
    pushed ← lines_push has_memory (take (line_take text) text) table
    wrap_line fuel (after_line text) pushed

  pub wrap_physical : List ℕ → TextLines → Option TextLines
  wrap_physical [] table = lines_push has_memory [] table
  wrap_physical (byte ∷ text) table = wrap_line (suc (suc (length text))) (byte ∷ text) table

  -- The loop over the physical lines, at most `fuel` rounds.
  pub wrap_lines : ℕ → List ℕ → TextLines → Option TextLines
  wrap_lines zero text table = none
  wrap_lines (suc fuel) [] table = some table
  wrap_lines (suc fuel) (byte ∷ rest) table = do
    wrapped ← wrap_physical (physical_line (byte ∷ rest)) table
    wrap_lines fuel (next_line (byte ∷ rest)) wrapped

  pub wrap_text : List ℕ → TextLines → Option TextLines
  wrap_text text table = do
    wrapped ← wrap_lines (suc (length text)) text table
    if ends_open text then lines_push has_memory [] wrapped else some wrapped
