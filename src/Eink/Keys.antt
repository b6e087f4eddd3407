-- ===== src/Eink/Keys.antt =====
-- runtime/fx_eink.c: `skip_whitespace`, `find_json_key`, `json_string_value` and
-- `json_integer_value`, which look for a key anywhere in a line of the protocol. `strtol` is a
-- parameter.
pub mod Objects
pub mod Lookup
mod Tests
use esp32_fx.Eink.Buffer.{TextBuffer, empty_buffer}
use esp32_fx.Eink.Json.{decode_json_string}
use esp32_fx.Prelude.{
  c_string, same_text, ℕ, zero, suc, ◌+◌, Bool, true, false, not, ◌&&◌, ◌||◌, Option, none, some,
  List, [], ◌∷◌, length, drop, leb, ◌==◌, if◌then◌else◌, ℤ,
}

-- `isspace` of the C locale
abbrev pub is_space : ℕ → Bool
is_space byte = byte == 32 || (leb 9 byte && leb byte 13)

unfoldable pub skip_whitespace : List ℕ → List ℕ
skip_whitespace [] = []
skip_whitespace (byte ∷ text) =
    let rest = skip_whitespace text in if is_space byte then rest else byte ∷ text

-- `strchr(cursor, '"')`
unfoldable pub find_quote : List ℕ → Option (List ℕ)
find_quote [] = none
find_quote (byte ∷ text) =
    let rest = find_quote text in if byte == b'"' then some (byte ∷ text) else rest

-- `key.data && strcmp(key.data, wanted) == 0`
unfoldable pub matches : TextBuffer → List ℕ → Bool
matches key wanted = not (key.capacity == 0) && same_text (c_string key.bytes) wanted

-- Whether the character at the cursor is the given one.
unfoldable pub at_char : ℕ → List ℕ → Bool
at_char wanted [] = false
at_char wanted (byte ∷ text) = byte == wanted

pub data StringValue : Type 0 where
  absent : StringValue
  malformed : StringValue
  found : TextBuffer → StringValue

pub data IntegerValue : Type 0 where
  missing : IntegerValue
  invalid : IntegerValue
  number : ℤ → IntegerValue

module _ (has_memory : ℕ → Bool) where
  -- The loop, at most `fuel` rounds; `none` is NULL.
  unfoldable pub find_key : ℕ → List ℕ → List ℕ → Option (List ℕ)
  find_key zero cursor wanted = none
  find_key (suc fuel) cursor wanted = elim (find_quote cursor) [
    | none ↦ none
    | some quote ↦ elim (decode_json_string has_memory quote empty_buffer) [
      | none ↦ find_key fuel (drop 1 quote) wanted
      | some (after, key) ↦
          let colon = skip_whitespace after in
          let value = skip_whitespace (drop 1 colon) in
          let next_value = find_key fuel value wanted in
          let next_text = find_key fuel colon wanted in
          if not (at_char b':' colon)
          then next_text
          else if matches key wanted
          then some value
          else next_value
    ]
  ]

  -- Every round takes a byte at least.
  unfoldable pub find_json_key : List ℕ → List ℕ → Option (List ℕ)
  find_json_key json wanted = find_key (suc (length json)) json wanted

  -- The results 0, -1 and 1, into an empty buffer, by what the search for the key gave.
  unfoldable pub cursor_value : Option (List ℕ) → StringValue
  cursor_value none = absent
  cursor_value (some cursor) =
      if at_char b'"' cursor
      then (elim (decode_json_string has_memory cursor empty_buffer) [
        | none ↦ malformed
        | some (rest, value) ↦ found value
      ])
      else absent

  unfoldable pub json_string_value : List ℕ → List ℕ → StringValue
  json_string_value json key = cursor_value (find_json_key json key)

  -- The results 0, -1 and 1. `strtol` gives `none` where it sets `errno` or reads no number.
  unfoldable pub json_integer_value : (List ℕ → Option ℤ) → List ℕ → List ℕ → IntegerValue
  json_integer_value strtol json key = elim (find_json_key json key) [
    | none ↦ missing
    | some cursor ↦ elim (strtol cursor) [ none ↦ invalid | some value ↦ number value ]
  ]
