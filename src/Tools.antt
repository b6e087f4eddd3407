-- ===== src/Tools.antt =====
-- runtime/fx_example_tools.c: the arguments of the example tools and what `fx_example_tool_call` decides
-- from them, before it touches a file or starts a process. A cursor is what is left of the input.
pub mod Project
pub mod Process
pub mod Call
pub mod Safe
pub mod Fuel
mod Tests
use esp32_fx.Prelude.{
  ℕ, zero, suc, ◌+◌, ◌-◌, ◌*◌, Bool, true, false, not, ◌&&◌, ◌||◌, Option, none, some, List, [],
  ◌∷◌, ◌++◌, length, ltb, leb, ◌==◌, if◌then◌else◌, ◌>>=◌, same_text, codes,
}

-- FILE_LIMIT
abbrev pub file_limit : ℕ
file_limit = 4096

-- ARG_LIMIT
abbrev pub arg_limit : ℕ
arg_limit = 8192

pub whitespace : List ℕ → List ℕ
whitespace [] = []
whitespace (byte ∷ p) =
    let rest = whitespace p in
    if byte == b' ' || byte == b'\t' || byte == b'\r' || byte == b'\n' then rest else byte ∷ p

-- `p == end || *p++ != wanted`; `none` is the result -1, here and below.
pub take_byte : ℕ → List ℕ → Option (List ℕ)
take_byte wanted [] = none
take_byte wanted (byte ∷ p) = if byte == wanted then some p else none

pub digit_of : ℕ → Option ℕ
digit_of digit =
    if leb b'0' digit && leb digit b'9'
    then some (digit - b'0')
    else if leb b'a' digit && leb digit b'f'
    then some (digit - b'a' + 10)
    else if leb b'A' digit && leb digit b'F'
    then some (digit - b'A' + 10)
    else none

-- The loop over four digits.
pub four_digits : ℕ → ℕ → List ℕ → Option (ℕ × List ℕ)
four_digits zero value p = some (value, p)
four_digits (suc count) value [] = none
four_digits (suc count) value (ch ∷ p) = do
  digit ← digit_of ch
  four_digits count (value * 16 + digit) p

-- The test of a character given by its number.
pub is_text : ℕ → Bool
is_text value = not (
    value == 0
    || ltb 126 value
    || (ltb value 32 && not (value == 9) && not (value == 10) && not (value == 13)))

pub unicode_char : List ℕ → Option (ℕ × List ℕ)
unicode_char p = do
  (value, rest) ← four_digits 4 0 p
  if is_text value then some (value, rest) else none

-- The `switch` behind a backslash.
pub escaped_char : List ℕ → Option (ℕ × List ℕ)
escaped_char [] = none
escaped_char (ch ∷ p) =
    if ch == b'"' || ch == b'\\' || ch == b'/'
    then some (ch, p)
    else if ch == b'n'
    then some (10, p)
    else if ch == b'r'
    then some (13, p)
    else if ch == b't'
    then some (9, p)
    else if ch == b'u'
    then unicode_char p
    else none

-- One character of a string, behind its first byte.
pub string_char : ℕ → List ℕ → Option (ℕ × List ℕ)
string_char ch p =
    if ltb ch 32 || ltb 126 ch then none else if ch == b'\\' then escaped_char p else some (ch, p)

-- The loop, at most `fuel` rounds; every round takes a byte at least.
pub string_rest : ℕ → ℕ → List ℕ → List ℕ → Option (List ℕ × List ℕ)
string_rest zero cap p out = none
string_rest (suc fuel) cap [] out = none
string_rest (suc fuel) cap (ch ∷ p) out =
    if ch == b'"' then some (out, p) else (elim (string_char ch p) [
      | none ↦ none
      | some (byte, rest) ↦
          let later = string_rest fuel cap rest (out ++ (byte ∷ [])) in
          if leb cap (length out + 1) then none else later
    ])

-- A string into a block of `cap` bytes.
pub string_value : ℕ → List ℕ → Option (List ℕ × List ℕ)
string_value cap p = do start ← take_byte b'"' p; string_rest (suc (length start)) cap start []

-- `struct args`; a field is `none` while its bit in `fields` is not set.
pub record Args : Type 0 where
  pub path : Option (List ℕ)
  pub content : Option (List ℕ)

abbrev pub no_args : Args
no_args = record { path = none; content = none }

-- The value of a field that is not there yet, behind its key.
pub field_value : ℕ → Option (List ℕ) → List ℕ → Option (List ℕ × List ℕ)
field_value cap (some value) p = none
field_value cap none p = do
  after_colon ← take_byte b':' (whitespace p)
  string_value cap (whitespace after_colon)

pub assign_path : List ℕ → Args → Option (Args × List ℕ)
assign_path p args = do
  (value, rest) ← field_value 32 args.path p
  some (record args { path = some value }, rest)

pub assign_content : List ℕ → Args → Option (Args × List ℕ)
assign_content p args = do
  (value, rest) ← field_value (file_limit + 1) args.content p
  some (record args { content = some value }, rest)

pub assign_arg : List ℕ → List ℕ → Args → Option (Args × List ℕ)
assign_arg key p args =
    if same_text key (codes "path")
    then assign_path p args
    else if same_text key (codes "content")
    then assign_content p args
    else none

-- One field, up to the white space behind it.
pub parse_field : List ℕ → Args → Option (Args × List ℕ)
parse_field p args = do
  (key, after_key) ← string_value 16 p
  (args', rest) ← assign_arg key after_key args
  some (args', whitespace rest)

-- The loop over the fields, at most `fuel` rounds.
pub parse_fields : ℕ → List ℕ → Args → Option (Args × List ℕ)
parse_fields zero p args = none
parse_fields (suc fuel) p args = elim (parse_field p args) [
  | none ↦ none
  | some (args', []) ↦ none
  | some (args', byte ∷ rest) ↦
      let later = parse_fields fuel (whitespace rest) args' in
      if byte == b',' then later else some (args', byte ∷ rest)
]

-- Behind the opening brace.
pub parse_body : List ℕ → Option (Args × List ℕ)
parse_body [] = some (no_args, [])
parse_body (byte ∷ p) =
    let fields = parse_fields (suc (suc (length p))) (byte ∷ p) no_args in
    if byte == b'}' then some (no_args, byte ∷ p) else fields

pub parse_object : List ℕ → Option Args
parse_object p = do
  start ← take_byte b'{' (whitespace p)
  (args, rest) ← parse_body (whitespace start)
  last ← take_byte b'}' rest
  if length (whitespace last) == 0 then some args else none

pub parse_args : List ℕ → Option Args
parse_args p = if ltb arg_limit (length p) then none else parse_object p

-- What a call may do: nothing but a reply, or read a file of the project, write battery.sh, or run the tests.
pub data Decision : Type 0 where
  invalid_call : Decision
  denied : Decision
  reads_file : List ℕ → Decision
  writes_battery : List ℕ → Decision
  runs_tests : Decision

pub data Tool : Type 0 where
  read_project : Tool
  replace_battery : Tool
  run_tests : Tool

pub tool_of : List ℕ → Option Tool
tool_of name =
    if same_text name (codes "read_project")
    then some read_project
    else if same_text name (codes "replace_battery")
    then some replace_battery
    else if same_text name (codes "run_tests")
    then some run_tests
    else none

-- The fields that each tool wants, and the paths that it may have.
pub decide : Tool → Args → Decision
decide read_project args = elim args.content as (λ _. Decision) [
  | some content ↦ invalid_call
  | none ↦ elim args.path as (λ _. Decision) [
    | none ↦ invalid_call
    | some path ↦
        if not (same_text path (codes "battery.sh"))
          && (not (same_text path (codes "SPEC.md")) && not (same_text path (codes "test.sh")))
        then denied
        else reads_file path
  ]
]
decide replace_battery args = elim args.path as (λ _. Decision) [
  | none ↦ invalid_call
  | some path ↦ elim args.content as (λ _. Decision) [
    | none ↦ invalid_call
    | some content ↦
        if not (same_text path (codes "battery.sh")) || length content == 0
        then denied
        else writes_battery content
  ]
]
decide run_tests args = elim args.path as (λ _. Decision) [
  | some path ↦ invalid_call
  | none ↦ elim args.content as (λ _. Decision) [ some content ↦ invalid_call | none ↦ runs_tests ]
]

-- The decision by the tool's name and the text of its arguments.
pub tool_decision : List ℕ → List ℕ → Decision
tool_decision name arguments = elim (tool_of name) as (λ _. Decision) [
  | none ↦ invalid_call
  | some tool ↦ elim (parse_args arguments) as (λ _. Decision) [
    | none ↦ invalid_call
    | some args ↦ decide tool args
  ]
]
