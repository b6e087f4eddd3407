-- ===== src/Native/Headers.antt =====
-- runtime/fx_wamr_native.c: `header_is_safe`, `parse_header_object` and `parse_headers`, which turn the
-- guest's JSON into header lines for libcurl. `malloc` (by the sizes it has memory for) and
-- `curl_slist_append` are parameters.
pub mod Safe
pub mod RoundTrip
pub mod Fuel
use esp32_fx.Native.Json.{skip_ws, parse_json_string}
use esp32_fx.Prelude.{
  ℕ, zero, suc, ◌+◌, ◌*◌, Bool, true, false, not, ◌&&◌, ◌||◌, Option, none, some, List, [], ◌∷◌,
  ◌++◌, length, drop, ltb, leb, ◌==◌, ◌>>=◌, if◌then◌else◌, add_size, sub_size, size_max, c_string,
  same_text, has_char,
}

-- FX_WAMR_MAX_HEADERS_BYTES
abbrev pub max_headers_bytes : ℕ
max_headers_bytes = 64 * 1024

pub header_is_safe : List ℕ → Bool
header_is_safe [] = true
header_is_safe (byte ∷ value) =
    let rest = header_is_safe value in
    if byte == b'\r' || byte == b'\n' || byte == 0x7f || ltb byte 0x20 then false else rest

-- `*cursor < end && **cursor == wanted`
pub at_byte : ℕ → List ℕ → Bool
at_byte wanted [] = false
at_byte wanted (byte ∷ text) = byte == wanted

-- `none` is the result -1, here and below.
pub expect : ℕ → List ℕ → Option (List ℕ)
expect wanted cursor = if at_byte wanted cursor then some (drop 1 cursor) else none

-- The variables `name` and `value`, NULL before a member gave them.
pub record HeaderFields : Type 0 where
  pub name : Option (List ℕ)
  pub value : Option (List ℕ)

abbrev pub no_fields : HeaderFields
no_fields = record { name = none; value = none }

pub assign_field : List ℕ → List ℕ → HeaderFields → HeaderFields
assign_field key field fields =
    if same_text (c_string key) (b'n' ∷ b'a' ∷ b'm' ∷ b'e' ∷ [])
    then record fields { name = some field }
    else if same_text (c_string key) (b'v' ∷ b'a' ∷ b'l' ∷ b'u' ∷ b'e' ∷ [])
    then record fields { value = some field }
    else fields

-- The comma before every element but the first.
pub separator : Bool → List ℕ → Option (List ℕ)
separator true cursor = some cursor
separator false cursor = do after ← expect b',' cursor; some (skip_ws after)

module _ (has_memory : ℕ → Bool) where
  -- A key with its value, up to the white space behind it.
  pub parse_member : List ℕ → Option ((List ℕ × List ℕ) × List ℕ)
  parse_member cursor = do
    (key, after_key) ← parse_json_string has_memory cursor
    after_colon ← expect b':' (skip_ws after_key)
    (field, after_field) ← parse_json_string has_memory (skip_ws after_colon)
    some ((key, field), skip_ws after_field)

  pub member_at : Bool → List ℕ → Option ((List ℕ × List ℕ) × List ℕ)
  member_at first start = do member ← separator first start; parse_member member

  -- The loop over the members, at most `fuel` rounds.
  pub parse_members : ℕ → Bool → List ℕ → HeaderFields → Option (HeaderFields × List ℕ)
  parse_members zero first cursor fields = none
  parse_members (suc fuel) first cursor fields =
      let start = skip_ws cursor in
      if at_byte b'}' start then some (fields, drop 1 start) else (elim (member_at first start) [
        | none ↦ none
        | some ((key, field), rest) ↦ parse_members fuel false rest (assign_field key field fields)
      ])

  -- The line of a name and a value, if both are there and safe.
  pub header_line : HeaderFields → Option (List ℕ)
  header_line fields = do
    raw_name ← fields.name
    raw_value ← fields.value
    let name = c_string raw_name
    let value = c_string raw_value
    if length name == 0
          || not (header_is_safe name)
          || not (header_is_safe value)
          || has_char b':' name
        then none
        else if ltb (sub_size (sub_size size_max (length value)) 3) (length name)
        then none
        else if has_memory (add_size (add_size (length name) (length value)) 3)
        then some (name ++ (b':' ∷ b' ' ∷ value))
        else none

-- `curl_slist`: the lines in order. `slist_append` is `curl_slist_append`, `none` its NULL.
module _ (has_memory : ℕ → Bool)
    (slist_append : List (List ℕ) → List ℕ → Option (List (List ℕ))) where
  -- The cursor behind the object, and the headers with the new line.
  pub parse_header_object : List ℕ → List (List ℕ) → Option (List ℕ × List (List ℕ))
  parse_header_object cursor headers = do
    start ← expect b'{' cursor
    (fields, rest) ← parse_members has_memory (suc (length start)) true start no_fields
    line ← header_line has_memory fields
    next ← slist_append headers line
    some (rest, next)

  pub object_at : Bool → List ℕ → List (List ℕ) → Option (List ℕ × List (List ℕ))
  object_at first start headers = do
    object ← separator first start
    parse_header_object object headers

  -- The loop over the objects, at most `fuel` rounds.
  pub parse_objects : ℕ → Bool → List ℕ → List (List ℕ) → Option (List ℕ × List (List ℕ))
  parse_objects zero first cursor headers = none
  parse_objects (suc fuel) first cursor headers =
      let start = skip_ws cursor in
      if at_byte b']' start
      then some (drop 1 start, headers)
      else (elim (object_at first start headers) [
        | none ↦ none
        | some (rest, next) ↦ parse_objects fuel false rest next
      ])

  pub parse_array : List ℕ → List (List ℕ) → Option (List (List ℕ))
  parse_array json headers = do
    start ← expect b'[' (skip_ws json)
    (rest, next) ← parse_objects (suc (length start)) true start headers
    if length (skip_ws rest) == 0 then some next else none

  pub parse_headers : List ℕ → List (List ℕ) → Option (List (List ℕ))
  parse_headers json headers =
      if ltb max_headers_bytes (length json) then none else parse_array json headers
