-- ===== src/Eink/Keys/Lookup.antt =====
-- The search for a key in an object whose values are strings.
use esp32_fx.Eink.Buffer.Laws.{IsValid}
use esp32_fx.Eink.Buffer.{TextBuffer, max_response_bytes}
use esp32_fx.Eink.Json.RoundTrip.{quoted, escaped_text, decode_json_string-quoted}
use esp32_fx.Eink.Keys.Objects.{members, object, lookup}
use esp32_fx.Eink.Keys.{
  skip_whitespace, find_quote, matches, at_char, find_key, find_json_key, StringValue, absent,
  found, cursor_value, json_string_value,
}
use esp32_fx.Prelude.{
  c_string, same_text, c_string_whole, ℕ, zero, suc, ◌+◌, ◌≤◌, ◌<◌, ◌≡◌, ◌≢◌, refl, ap, ◌∙◌, Bool,
  true, false, inl, inr, Option, none, some, List, [], ◌∷◌, ◌++◌, length, length-append, All, ◌==◌,
  if◌then◌else◌, arith, Bool-cases,
}

-- A member whose key is a C string, not empty, and whose texts fit a buffer.
pub record IsMember (pair : List ℕ × List ℕ) : Type 0 where
  pub nonempty : 0 < length pair.0
  pub no_nul : All (λ byte. byte ≢ 0) pair.0
  pub key_fits : length pair.0 ≤ max_response_bytes
  pub value_fits : length pair.1 ≤ max_response_bytes

-- The value's text and what follows it, for the first member with the key.
value_at : List ℕ → List (List ℕ × List ℕ) → Option (List ℕ)
value_at wanted [] = none
value_at wanted ((key, value) ∷ pairs) =
    if same_text key wanted
    then some (quoted value ++ members b',' pairs)
    else value_at wanted pairs

-- What follows a value is neither space nor a colon.
members_separate :
    (pairs : List (List ℕ × List ℕ))
    → (skip_whitespace (members b',' pairs) ≡ members b',' pairs)
      × (at_char b':' (members b',' pairs) ≡ false)
unfolding skip_whitespace at_char
members_separate [] = (refl, refl)
members_separate (pair ∷ pairs) = (refl, refl)

length-members :
    (before : ℕ) (key value : List ℕ) (pairs : List (List ℕ × List ℕ))
    → length (members b',' pairs) + 4 ≤ length (members before ((key, value) ∷ pairs))
length-members before key value pairs =
    let rest = members b',' pairs in
    omega (
      arith,
      length-append (escaped_text key ++ (b'"' ∷ [])) (b':' ∷ (quoted value ++ rest)),
      length-append (escaped_text value ++ (b'"' ∷ [])) rest,
    )

find_quote-members :
    (before : ℕ) (key value : List ℕ) (pairs : List (List ℕ × List ℕ))
    → before ≢ b'"'
    → find_quote (members before ((key, value) ∷ pairs))
      ≡ some (quoted key ++ (b':' ∷ (quoted value ++ members b',' pairs)))
unfolding find_quote
find_quote-members before key value pairs h = ground (arith, h)

-- The answer that a lookup of the value calls for.
abbrev pub Answers : Option (List ℕ) → StringValue → Type 0
Answers none absent = Unit {0}
Answers (some text) (found value) = value.bytes ≡ text
Answers _ _ = ⊥

module _ (has_memory : ℕ → Bool) (memory : (n : ℕ) → has_memory n ≡ true) where
  matches-key :
      (key : List ℕ) (wanted : List ℕ) (c : TextBuffer)
      → 0 < length key
      → All (λ byte. byte ≢ 0) key
      → c.bytes ≡ key
      → IsValid c
      → matches c wanted ≡ same_text key wanted
  unfolding matches
  matches-key key wanted c nonempty no_nul bytes v =
      let whole : c_string c.bytes ≡ key = ap c_string bytes ∙ c_string_whole key no_nul in
      let len : length c.bytes ≡ length key = ap length bytes in
      let block : (c.capacity == 0) ≡ false = ground (arith, v, len, nonempty) in
      rw (whole, block) refl

  find_key-key :
      (fuel : ℕ) (cursor wanted key value rest : List ℕ)
      → IsMember (key, value)
      → find_quote cursor ≡ some (quoted key ++ (b':' ∷ (quoted value ++ rest)))
      → find_key has_memory (suc fuel) cursor wanted ≡ (
          if same_text key wanted
          then some (quoted value ++ rest)
          else find_key has_memory fuel (quoted value ++ rest) wanted)
  unfolding find_key same_text
  find_key-key fuel cursor wanted key value rest m quote =
      let after : List ℕ = b':' ∷ (quoted value ++ rest) in
      let (c, decoded, bytes, v) =
        decode_json_string-quoted has_memory key after memory m.key_fits in
      let colon_next : skip_whitespace after ≡ after = unfold skip_whitespace in refl in
      let value_next : skip_whitespace (quoted value ++ rest) ≡ quoted value ++ rest =
        unfold skip_whitespace in refl in
      let colon_there : at_char b':' after ≡ true = unfold at_char in refl in
      let same = matches-key key wanted c m.nonempty m.no_nul bytes v in
      rw (quote, find_key, decoded, colon_next, value_next, colon_there, same) refl

  find_key-value :
      (fuel : ℕ) (wanted value rest : List ℕ)
      → length value ≤ max_response_bytes
      → skip_whitespace rest ≡ rest
      → at_char b':' rest ≡ false
      → find_key has_memory (suc fuel) (quoted value ++ rest) wanted
        ≡ find_key has_memory fuel rest wanted
  unfolding find_key
  find_key-value fuel wanted value rest fits skip colon =
      let (c, decoded, bytes, v) = decode_json_string-quoted has_memory value rest memory fits in
      let quote : find_quote (quoted value ++ rest) ≡ some (quoted value ++ rest) =
        unfold find_quote in refl in
      rw (quote, find_key, decoded, skip, colon) refl

  find_key-members :
      (pairs : List (List ℕ × List ℕ)) (before fuel : ℕ) (wanted : List ℕ)
      → before ≢ b'"'
      → All IsMember pairs
      → length (members before pairs) < fuel
      → find_key has_memory fuel (members before pairs) wanted ≡ value_at wanted pairs
  unfolding value_at
  find_key-members pairs before zero wanted b m h = absurd (omega arith)
  find_key-members [] before (suc fuel) wanted b m h = unfold find_key find_quote in refl
  find_key-members ((key, value) ∷ pairs) before (suc zero) wanted b m h =
      absurd (omega (arith, length-members before key value pairs))
  find_key-members ((key, value) ∷ pairs) before (suc (suc fuel)) wanted b m h =
      let rest = members b',' pairs in
      let quote = find_quote-members before key value pairs b in
      let separate = members_separate pairs in
      let ih =
        find_key-members pairs b',' fuel wanted (omega arith) m.1
          (omega (arith, length-members before key value pairs)) in
      find_key-key (suc fuel) (members before ((key, value) ∷ pairs)) wanted key value rest m.0
        quote
      ∙ ap (λ r. if same_text key wanted then some (quoted value ++ rest) else r)
          (find_key-value fuel wanted value rest m.0.value_fits separate.0 separate.1 ∙ ih)

  find_json_key-object :
      (pairs : List (List ℕ × List ℕ)) (wanted : List ℕ)
      → All IsMember pairs
      → find_json_key has_memory (object pairs) wanted ≡ value_at wanted pairs
  unfolding find_json_key
  find_json_key-object [] wanted m = unfold find_key find_quote value_at in refl
  find_json_key-object (pair ∷ pairs) wanted m =
      find_key-members (pair ∷ pairs) b'{' (suc (length (object (pair ∷ pairs)))) wanted
        (omega arith) m (omega arith)

  value_at-Answers :
      (pairs : List (List ℕ × List ℕ)) (wanted : List ℕ)
      → All IsMember pairs
      → Answers (lookup wanted pairs) (cursor_value has_memory (value_at wanted pairs))
  unfolding value_at cursor_value at_char
  value_at-Answers [] wanted m = tt
  value_at-Answers ((key, value) ∷ pairs) wanted m = elim (Bool-cases (same_text key wanted)) [
    | inl same ↦
        let (c, decoded, bytes, v) =
          decode_json_string-quoted has_memory value (members b',' pairs) memory m.0.value_fits in
        rw (same, decoded) bytes
    | inr other ↦ rw other (value_at-Answers pairs wanted m.1)
  ]

  -- On an object whose values are strings, as `write_json_string` writes them, `json_string_value`
  -- finds the value of the first member with the key, and nothing if there is none: no text inside a
  -- value is taken for a key. The members' keys are C strings that are not empty, their texts have
  -- at most 32 KiB, and memory lasts.
  pub json_string_value_lem :
      (pairs : List (List ℕ × List ℕ)) (wanted : List ℕ)
      → All IsMember pairs
      → Answers (lookup wanted pairs) (json_string_value has_memory (object pairs) wanted)
  unfolding json_string_value
  json_string_value_lem pairs wanted m =
      rw (find_json_key-object pairs wanted m) (value_at-Answers pairs wanted m)
