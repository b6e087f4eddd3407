-- ===== src/Native/Headers/Safe.antt =====
-- The lines that `parse_headers` hands to libcurl.
use esp32_fx.Native.Headers.{
  HeaderFields, header_is_safe, header_line, expect, no_fields, parse_members, separator, object_at,
  at_byte, parse_header_object, parse_objects, parse_array, parse_headers,
}
use esp32_fx.Native.Json.{skip_ws}
use esp32_fx.Prelude.{
  ℕ, zero, suc, ◌≤◌, ◌<◌, ◌≡◌, ◌≢◌, sym, ap, ◌∙◌, inl, inr, Bool, true, false, Option, some, List,
  [], ◌∷◌, ◌++◌, length, append_assoc, append-nil, arith, bind-eq-some, Option-cases, Bool-cases,
  All, All-append, c_string, has_char,
}

-- A byte that is no control character; so no line break either.
abbrev pub IsVisible : ℕ → Type 0
IsVisible byte = (0x20 ≤ byte) × (byte ≢ 0x7f)

-- A header line: a name that is not empty and has no colon, a colon and a space, a value; and no
-- control character in either.
pub record IsHeader (line : List ℕ) : Type 0 where
  pub name : List ℕ
  pub value : List ℕ
  pub form : line ≡ name ++ (b':' ∷ b' ' ∷ value)
  pub nonempty : 0 < length name
  pub name_visible : All IsVisible name
  pub no_colon : has_char b':' name ≡ false
  pub value_visible : All IsVisible value

header_is_safe-IsVisible : (text : List ℕ) → header_is_safe text ≡ true → All IsVisible text
unfolding header_is_safe
header_is_safe-IsVisible [] e = tt
header_is_safe-IsVisible (byte ∷ text) e = ground (arith, header_is_safe-IsVisible text)

-- What `curl_slist_append` promises: a list that is given back has the line at its end.
abbrev pub AppendsLine : (List (List ℕ) → List ℕ → Option (List (List ℕ))) → Type 0
AppendsLine slist_append =
    (headers : List (List ℕ)) (line : List ℕ) (next : List (List ℕ))
    → slist_append headers line ≡ some next
    → next ≡ headers ++ (line ∷ [])

-- What a parser adds to the headers.
pub record AddsHeaders (headers next : List (List ℕ)) : Type 0 where
  pub new : List (List ℕ)
  pub added : next ≡ headers ++ new
  pub all_headers : All IsHeader new

module _ (has_memory : ℕ → Bool) (slist_append : List (List ℕ) → List ℕ → Option (List (List ℕ)))
    (appends : AppendsLine slist_append) where
  header_line-IsHeader :
      (fields : HeaderFields) (line : List ℕ)
      → header_line has_memory fields ≡ some line
      → IsHeader line
  unfolding header_line
  header_line-IsHeader fields line e =
      let (raw_name, e1, r1) = bind-eq-some fields.name _ e in
      let (raw_value, e2, r2) = bind-eq-some fields.value _ r1 in
      let name = c_string raw_name in
      let value = c_string raw_value in
      record {
        name = name;
        value = value;
        form = ground (arith, r2);
        nonempty = ground (arith, r2);
        name_visible = header_is_safe-IsVisible name (ground (arith, r2));
        no_colon = ground (arith, r2);
        value_visible = header_is_safe-IsVisible value (ground (arith, r2));
      }

  parse_header_object-AddsHeaders :
      (cursor rest : List ℕ) (headers next : List (List ℕ))
      → parse_header_object has_memory slist_append cursor headers ≡ some (rest, next)
      → AddsHeaders headers next
  unfolding parse_header_object
  parse_header_object-AddsHeaders cursor rest headers next e =
      let (start, e1, r1) = bind-eq-some (expect b'{' cursor) _ e in
      let ((fields, after), e2, r2) =
        bind-eq-some (parse_members has_memory (suc (length start)) true start no_fields) _ r1 in
      let (line, e3, r3) = bind-eq-some (header_line has_memory fields) _ r2 in
      let (next', e4, r4) = bind-eq-some (slist_append headers line) _ r3 in
      let same : next' ≡ next = cc (r4) in
      record {
        new = line ∷ [];
        added = sym same ∙ appends headers line next' e4;
        all_headers = (header_line-IsHeader fields line e3, tt);
      }

  object_at-AddsHeaders :
      (first : Bool) (start rest : List ℕ) (headers next : List (List ℕ))
      → object_at has_memory slist_append first start headers ≡ some (rest, next)
      → AddsHeaders headers next
  unfolding object_at
  object_at-AddsHeaders first start rest headers next e =
      let (object, e1, r1) = bind-eq-some (separator first start) _ e in
      parse_header_object-AddsHeaders object rest headers next r1

  -- What one parser adds, and then the next.
  AddsHeaders-trans :
      {xs ys zs : List (List ℕ)} → AddsHeaders xs ys → AddsHeaders ys zs → AddsHeaders xs zs
  AddsHeaders-trans {xs} a b = record {
    new = a.new ++ b.new;
    added = b.added ∙ ap (λ hs. hs ++ b.new) a.added ∙ append_assoc xs a.new b.new;
    all_headers = All-append IsHeader a.new b.new a.all_headers b.all_headers;
  }

  no_headers : {xs ys : List (List ℕ)} → xs ≡ ys → AddsHeaders xs ys
  no_headers {xs} e = record { new = []; added = sym e ∙ sym (append-nil xs); all_headers = tt }

  parse_objects-AddsHeaders :
      (fuel : ℕ) (first : Bool) (cursor rest : List ℕ) (headers next : List (List ℕ))
      → parse_objects has_memory slist_append fuel first cursor headers ≡ some (rest, next)
      → AddsHeaders headers next
  unfolding parse_objects
  parse_objects-AddsHeaders zero first cursor rest headers next e = absurd (cc)
  parse_objects-AddsHeaders (suc fuel) first cursor rest headers next e =
      let start = skip_ws cursor in
      elim (Bool-cases (at_byte b']' start)) [
        | inl closed ↦ no_headers (ground (arith, closed, e))
        | inr more ↦ elim (Option-cases (object_at has_memory slist_append first start headers)) [
          | inl n ↦ absurd (ground (arith, n, more, e))
          | inr ((later, middle), o) ↦
              AddsHeaders-trans (object_at-AddsHeaders first start later headers middle o) (
                parse_objects-AddsHeaders fuel false later rest middle next
                  (ground (arith, o, more, e)))
        ]
      ]

  parse_array-AddsHeaders :
      (json : List ℕ) (headers next : List (List ℕ))
      → parse_array has_memory slist_append json headers ≡ some next
      → AddsHeaders headers next
  unfolding parse_array
  parse_array-AddsHeaders json headers next e =
      let (start, e1, r1) = bind-eq-some (expect b'[' (skip_ws json)) _ e in
      let ((rest, last), e2, r2) =
        bind-eq-some (parse_objects has_memory slist_append (suc (length start)) true start headers)
          _ r1 in
      let same : last ≡ next = ground (arith, r2) in
      AddsHeaders-trans
        (parse_objects-AddsHeaders (suc (length start)) true start rest headers last e2)
        (no_headers same)

  -- If `parse_headers` accepts the guest's text, whatever it is, then every line it adds is a header
  -- line: a name that is not empty and has no colon, a colon and a space, and a value, without any
  -- control character in them. So no header can carry a line break or smuggle in another header.
  -- `curl_slist_append` is taken to append.
  pub parse_headers-AddsHeaders :
      (json : List ℕ) (headers next : List (List ℕ))
      → parse_headers has_memory slist_append json headers ≡ some next
      → AddsHeaders headers next
  unfolding parse_headers
  parse_headers-AddsHeaders json headers next e =
      parse_array-AddsHeaders json headers next (ground (arith, e))
