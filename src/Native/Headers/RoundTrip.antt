-- ===== src/Native/Headers/RoundTrip.antt =====
-- `parse_headers` on the JSON of a list of headers.
use esp32_fx.Eink.Json.RoundTrip.{quoted, escaped_text}
use esp32_fx.Native.Headers.Safe.{IsVisible}
use esp32_fx.Native.Headers.{
  HeaderFields, max_headers_bytes, header_is_safe, header_line, expect, at_byte, no_fields,
  assign_field, parse_members, parse_member, member_at, separator, object_at, parse_header_object,
  parse_objects, parse_array, parse_headers,
}
use esp32_fx.Native.Json.RoundTrip.{parse_json_string-quoted}
use esp32_fx.Native.Json.{skip_ws}
use esp32_fx.Prelude.{
  ℕ, zero, suc, ◌+◌, ◌≤◌, ◌<◌, ◌≡◌, ◌≢◌, refl, sym, ap, ◌∙◌, Bool, true, false, Option, some, List,
  [], ◌∷◌, ◌++◌, map, length, append_assoc, append-nil, arith, All, c_string, c_string_whole,
  has_char, length-append, same_text, add_size,
}

abbrev pub name_key : List ℕ
name_key = b'n' ∷ b'a' ∷ b'm' ∷ b'e' ∷ []

abbrev pub value_key : List ℕ
value_key = b'v' ∷ b'a' ∷ b'l' ∷ b'u' ∷ b'e' ∷ []

-- `{"name":"...","value":"..."}` and what follows it.
abbrev pub header_text : List ℕ × List ℕ → List ℕ → List ℕ
header_text (name, value) rest =
    b'{'
    ∷ (quoted name_key
        ++ (b':'
            ∷ (quoted name
                ++ (b',' ∷ (quoted value_key ++ (b':' ∷ (quoted value ++ (b'}' ∷ rest))))))))

-- The objects behind the first, and the closing bracket.
abbrev pub more_headers : List (List ℕ × List ℕ) → List ℕ
more_headers [] = b']' ∷ []
more_headers (header ∷ headers) = b',' ∷ header_text header (more_headers headers)

abbrev pub headers_text : List (List ℕ × List ℕ) → List ℕ
headers_text [] = b'[' ∷ b']' ∷ []
headers_text (header ∷ headers) = b'[' ∷ header_text header (more_headers headers)

abbrev pub line_of : List ℕ × List ℕ → List ℕ
line_of (name, value) = name ++ (b':' ∷ b' ' ∷ value)

-- A name and a value of visible characters, the name not empty and without a colon, that are no
-- longer than the text that carries them may be.
pub record IsSafe (header : List ℕ × List ℕ) : Type 0 where
  pub nonempty : 0 < length header.0
  pub name_visible : All IsVisible header.0
  pub no_colon : has_char b':' header.0 ≡ false
  pub value_visible : All IsVisible header.1
  pub fits : length header.0 + length header.1 ≤ max_headers_bytes

IsVisible-header_is_safe : (text : List ℕ) → All IsVisible text → header_is_safe text ≡ true
unfolding header_is_safe
IsVisible-header_is_safe [] v = refl
IsVisible-header_is_safe (byte ∷ text) v = ground (arith, v.0, IsVisible-header_is_safe text v.1)

IsVisible-no_nul : (text : List ℕ) → All IsVisible text → All (λ byte. byte ≢ 0) text
IsVisible-no_nul [] v = tt
IsVisible-no_nul (byte ∷ text) v = (ground (arith, v.0), IsVisible-no_nul text v.1)

header_text_longer :
    (name value rest : List ℕ) → length rest + 4 ≤ length (header_text (name, value) rest)
header_text_longer name value rest =
    let d : List ℕ = b'}' ∷ rest in
    let c : List ℕ = b':' ∷ (quoted value ++ d) in
    let b : List ℕ = b',' ∷ (quoted value_key ++ c) in
    let a : List ℕ = b':' ∷ (quoted name ++ b) in
    omega (
      arith,
      length-append (escaped_text name_key ++ (b'"' ∷ [])) a,
      length-append (escaped_text name ++ (b'"' ∷ [])) b,
      length-append (escaped_text value_key ++ (b'"' ∷ [])) c,
      length-append (escaped_text value ++ (b'"' ∷ [])) d,
    )

more_headers_longer :
    (headers : List (List ℕ × List ℕ)) → length headers < length (more_headers headers)
more_headers_longer [] = omega arith
more_headers_longer ((name, value) ∷ headers) =
    omega (arith, header_text_longer name value (more_headers headers), more_headers_longer headers)

module _ (has_memory : ℕ → Bool) (memory : (n : ℕ) → has_memory n ≡ true) where
  parse_member-quoted :
      (key field rest : List ℕ)
      → skip_ws rest ≡ rest
      → parse_member has_memory (quoted key ++ (b':' ∷ (quoted field ++ rest)))
        ≡ some ((key, field), rest)
  unfolding parse_member
  parse_member-quoted key field rest skip =
      let colon : expect b':' (skip_ws (b':' ∷ (quoted field ++ rest)))
          ≡ some (quoted field ++ rest) =
        unfold skip_ws expect at_byte in refl in
      let start : skip_ws (quoted field ++ rest) ≡ quoted field ++ rest = unfold skip_ws in refl in
      rw
        (
          parse_json_string-quoted has_memory key (b':' ∷ (quoted field ++ rest)) memory,
          colon,
          start,
          parse_json_string-quoted has_memory field rest memory,
          skip,
        )
        refl

  parse_members_round :
      (fuel : ℕ) (first : Bool) (cursor key field rest : List ℕ) (fields : HeaderFields)
      → skip_ws cursor ≡ cursor
      → at_byte b'}' cursor ≡ false
      → member_at has_memory first cursor ≡ some ((key, field), rest)
      → parse_members has_memory (suc fuel) first cursor fields
        ≡ parse_members has_memory fuel false rest (assign_field key field fields)
  unfolding parse_members
  parse_members_round fuel first cursor key field rest fields skip more m = rw (skip, more, m) refl

  parse_members-text :
      (fuel : ℕ) (name value rest : List ℕ)
      → 2 < fuel
      → parse_members has_memory fuel true
          (quoted name_key
            ++ (b':'
                ∷ (quoted name
                    ++ (b',' ∷ (quoted value_key ++ (b':' ∷ (quoted value ++ (b'}' ∷ rest))))))))
          no_fields
        ≡ some (record { name = some name; value = some value }, rest)
  parse_members-text zero name value rest h = absurd (omega arith)
  parse_members-text (suc zero) name value rest h = absurd (omega arith)
  parse_members-text (suc (suc zero)) name value rest h = absurd (omega arith)
  parse_members-text (suc (suc (suc fuel))) name value rest h =
      let behind : List ℕ = b'}' ∷ rest in
      let second : List ℕ = quoted value_key ++ (b':' ∷ (quoted value ++ behind)) in
      let first : List ℕ = quoted name_key ++ (b':' ∷ (quoted name ++ (b',' ∷ second))) in
      let member1 = parse_member-quoted name_key name (b',' ∷ second) (unfold skip_ws in refl) in
      let member2 = parse_member-quoted value_key value behind (unfold skip_ws in refl) in
      parse_members_round (suc (suc fuel)) true first name_key name (b',' ∷ second) no_fields
        (unfold skip_ws in refl) (unfold at_byte in refl) (unfold member_at separator in member1)
      ∙ parse_members_round (suc fuel) false (b',' ∷ second) value_key value behind
          (assign_field name_key name no_fields) (unfold skip_ws in refl) (unfold at_byte in refl)
          (unfold member_at separator expect at_byte skip_ws in member2)
      ∙ (unfold parse_members assign_field same_text c_string skip_ws at_byte in refl)

  header_line_safe :
      (name value : List ℕ)
      → IsSafe (name, value)
      → header_line has_memory (record { name = some name; value = some value })
        ≡ some (line_of (name, value))
  unfolding header_line
  header_line_safe name value safe =
      rw
        (
          c_string_whole name (IsVisible-no_nul name safe.name_visible),
          c_string_whole value (IsVisible-no_nul value safe.value_visible),
          IsVisible-header_is_safe name safe.name_visible,
          IsVisible-header_is_safe value safe.value_visible,
          safe.no_colon,
        )
        (ground (
          arith,
          safe.nonempty,
          safe.fits,
          memory (add_size (add_size (length name) (length value)) 3),
        ))

  parse_header_object-text :
      (name value rest : List ℕ) (headers : List (List ℕ))
      (slist_append : List (List ℕ) → List ℕ → Option (List (List ℕ)))
      → ((hs : List (List ℕ)) (line : List ℕ) → slist_append hs line ≡ some (hs ++ (line ∷ [])))
      → IsSafe (name, value)
      → parse_header_object has_memory slist_append (header_text (name, value) rest) headers
        ≡ some (rest, headers ++ (line_of (name, value) ∷ []))
  unfolding parse_header_object expect at_byte
  parse_header_object-text name value rest headers slist_append appends safe =
      let after_name : List ℕ =
        b':'
        ∷ (quoted name
            ++ (b',' ∷ (quoted value_key ++ (b':' ∷ (quoted value ++ (b'}' ∷ rest)))))) in
      let long = length-append (escaped_text name_key ++ (b'"' ∷ [])) after_name in
      rw
        (
          parse_members-text (suc (length (quoted name_key ++ after_name))) name value rest
              (omega (arith, long)),
          header_line_safe name value safe,
          appends headers (line_of (name, value)),
        )
        refl

  module _ (slist_append : List (List ℕ) → List ℕ → Option (List (List ℕ)))
      (appends : (hs : List (List ℕ)) (line : List ℕ)
        → slist_append hs line ≡ some (hs ++ (line ∷ []))) where
    parse_objects-text :
        (fuel : ℕ) (headers : List (List ℕ × List ℕ)) (lines : List (List ℕ))
        → length headers < fuel
        → All IsSafe headers
        → parse_objects has_memory slist_append fuel false (more_headers headers) lines
          ≡ some ([], lines ++ map line_of headers)
    unfolding parse_objects
    parse_objects-text zero headers lines h safe = absurd (omega arith)
    parse_objects-text (suc fuel) [] lines h safe =
        unfold skip_ws at_byte in
        ap (λ (ls : List (List ℕ)). some ([], ls)) (sym (append-nil lines))
    parse_objects-text (suc fuel) ((name, value) ∷ headers) lines h safe =
        let object =
          parse_header_object-text name value (more_headers headers) lines slist_append appends
            safe.0 in
        let start : object_at has_memory slist_append false (more_headers ((name, value) ∷ headers))
              lines
            ≡ some (more_headers headers, lines ++ (line_of (name, value) ∷ [])) =
          unfold object_at separator expect at_byte skip_ws in object in
        let skip : skip_ws (more_headers ((name, value) ∷ headers))
            ≡ more_headers ((name, value) ∷ headers) =
          unfold skip_ws in refl in
        let open_end : at_byte b']' (more_headers ((name, value) ∷ headers)) ≡ false =
          unfold at_byte in refl in
        rw (skip, open_end, start)
          (parse_objects-text fuel headers (lines ++ (line_of (name, value) ∷ [])) (omega arith)
              safe.1
            ∙ ap (λ (ls : List (List ℕ)). some ([], ls))
                (append_assoc lines (line_of (name, value) ∷ []) (map line_of headers)))

    parse_array-text :
        (headers : List (List ℕ × List ℕ))
        → All IsSafe headers
        → parse_array has_memory slist_append (headers_text headers) [] ≡ some (map line_of headers)
    unfolding parse_array parse_objects skip_ws expect at_byte
    parse_array-text [] safe = refl
    parse_array-text ((name, value) ∷ headers) safe =
        let rest = more_headers headers in
        let start = header_text (name, value) rest in
        let object : object_at has_memory slist_append true start []
            ≡ some (rest, line_of (name, value) ∷ []) =
          unfold object_at separator in
          parse_header_object-text name value rest [] slist_append appends safe.0 in
        let enough : length headers < length start =
          omega (arith, header_text_longer name value rest, more_headers_longer headers) in
        rw
          (
            object,
            parse_objects-text (length start) headers (line_of (name, value) ∷ []) enough safe.1,
          )
          refl

    -- While memory lasts and `curl_slist_append` appends, `parse_headers` turns the JSON of a list of
    -- headers, at most 64 KiB of it, into their lines in order. The names and values are of visible
    -- characters, no name is empty, and none has a colon.
    pub parse_headers-text :
        (headers : List (List ℕ × List ℕ))
        → length (headers_text headers) ≤ max_headers_bytes
        → All IsSafe headers
        → parse_headers has_memory slist_append (headers_text headers) []
          ≡ some (map line_of headers)
    parse_headers-text headers small safe =
        unfold parse_headers in ground (arith, parse_array-text headers safe)
