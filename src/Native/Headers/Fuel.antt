-- ===== src/Native/Headers/Fuel.antt =====
-- The parsers of headers always move on, so their bounds on rounds never end a loop.
use esp32_fx.Native.Headers.{
  HeaderFields, no_fields, assign_field, at_byte, expect, separator, parse_member, member_at,
  parse_members, header_line, parse_header_object, object_at, parse_objects,
}
use esp32_fx.Native.Json.Bounds.{parse_json_string_small}
use esp32_fx.Native.Json.{skip_ws, parse_json_string}
use esp32_fx.Prelude.{
  ℕ, zero, suc, ◌≤◌, ◌<◌, ◌≡◌, refl, inl, inr, Bool, true, false, Option, some, List, [], ◌∷◌,
  length, length-drop, arith, bind-eq-some, Option-cases, Bool-cases,
}

skip_ws_short : (p : List ℕ) → length (skip_ws p) ≤ length p
unfolding skip_ws
skip_ws_short [] = omega arith
skip_ws_short (byte ∷ p) = ground (arith, skip_ws_short p)

expect_short :
    (wanted : ℕ) (p rest : List ℕ) → expect wanted p ≡ some rest → suc (length rest) ≡ length p
unfolding expect at_byte
expect_short wanted [] rest e = absurd (cc)
expect_short wanted (byte ∷ p) rest e = ground (arith, e)

separator_short :
    (first : Bool) (p rest : List ℕ) → separator first p ≡ some rest → length rest ≤ length p
unfolding separator
separator_short true p rest e = ground (arith, e)
separator_short false p rest e =
    let (after, f, r) = bind-eq-some (expect b',' p) _ e in
    ground (arith, r, expect_short b',' p after f, skip_ws_short after)

module _ (has_memory : ℕ → Bool) where
  member_at_short :
      (first : Bool) (p : List ℕ) (member : List ℕ × List ℕ) (rest : List ℕ)
      → member_at has_memory first p ≡ some (member, rest)
      → length rest < length p
  unfolding member_at parse_member
  member_at_short first p member rest e =
      let (start, e0, r0) = bind-eq-some (separator first p) _ e in
      let ((key, after_key), e1, r1) = bind-eq-some (parse_json_string has_memory start) _ r0 in
      let (after_colon, e2, r2) = bind-eq-some (expect b':' (skip_ws after_key)) _ r1 in
      let ((field, after_field), e3, r3) =
        bind-eq-some (parse_json_string has_memory (skip_ws after_colon)) _ r2 in
      ground (
        arith,
        r3,
        separator_short first p start e0,
        parse_json_string_small has_memory start key after_key e1,
        skip_ws_short after_key,
        expect_short b':' (skip_ws after_key) after_colon e2,
        skip_ws_short after_colon,
        parse_json_string_small has_memory (skip_ws after_colon) field after_field e3,
        skip_ws_short after_field,
      )

  -- Any two numbers of rounds beyond the length of the input give `parse_members` the same result.
  parse_members_fuel :
      (fuel more : ℕ) (first : Bool) (cursor : List ℕ) (fields : HeaderFields)
      → length cursor < fuel
      → length cursor < more
      → parse_members has_memory fuel first cursor fields
        ≡ parse_members has_memory more first cursor fields
  unfolding parse_members
  parse_members_fuel zero more first cursor fields f m = absurd (omega arith)
  parse_members_fuel (suc fuel) zero first cursor fields f m = absurd (omega arith)
  parse_members_fuel (suc fuel) (suc more) first cursor fields f m =
      elim (Option-cases (member_at has_memory first (skip_ws cursor))) [
        | inl e ↦ rw (e, parse_members) refl
        | inr (((key, field), rest), e) ↦
            let short = member_at_short first (skip_ws cursor) (key, field) rest e in
            rw (e, parse_members)
              (rw
                (parse_members_fuel fuel more false rest (assign_field key field fields)
                  (omega (arith, short, skip_ws_short cursor))
                  (omega (arith, short, skip_ws_short cursor)))
                refl)
      ]

  parse_members_short :
      (fuel : ℕ) (first : Bool) (cursor : List ℕ) (fields last : HeaderFields) (rest : List ℕ)
      → parse_members has_memory fuel first cursor fields ≡ some (last, rest)
      → length rest ≤ length cursor
  unfolding parse_members
  parse_members_short zero first cursor fields last rest e = absurd (cc)
  parse_members_short (suc fuel) first cursor fields last rest e =
      elim (Bool-cases (at_byte b'}' (skip_ws cursor))) [
        | inl done ↦ ground (arith, done, e, length-drop 1 (skip_ws cursor), skip_ws_short cursor)
        | inr on ↦ elim (Option-cases (member_at has_memory first (skip_ws cursor))) [
          | inl none_there ↦ absurd (ground (arith, on, none_there, e))
          | inr (((key, field), later), there) ↦ ground (
            arith,
            on,
            there,
            e,
            member_at_short first (skip_ws cursor) (key, field) later there,
            skip_ws_short cursor,
            parse_members_short fuel false later (assign_field key field fields) last rest,
          )
        ]
      ]

module _ (has_memory : ℕ → Bool)
    (slist_append : List (List ℕ) → List ℕ → Option (List (List ℕ))) where
  object_at_short :
      (first : Bool) (p : List ℕ) (headers next : List (List ℕ)) (rest : List ℕ)
      → object_at has_memory slist_append first p headers ≡ some (rest, next)
      → length rest < length p
  unfolding object_at parse_header_object
  object_at_short first p headers next rest e =
      let (object, e0, r0) = bind-eq-some (separator first p) _ e in
      let (start, e1, r1) = bind-eq-some (expect b'{' object) _ r0 in
      let ((fields, last), e2, r2) =
        bind-eq-some (parse_members has_memory (suc (length start)) true start no_fields) _ r1 in
      let (line, e3, r3) = bind-eq-some (header_line has_memory fields) _ r2 in
      let (lines, e4, r4) = bind-eq-some (slist_append headers line) _ r3 in
      ground (
        arith,
        r4,
        separator_short first p object e0,
        expect_short b'{' object start e1,
        parse_members_short has_memory (suc (length start)) true start no_fields fields last e2,
      )

  objects_fuel :
      (fuel more : ℕ) (first : Bool) (cursor : List ℕ) (headers : List (List ℕ))
      → length cursor < fuel
      → length cursor < more
      → parse_objects has_memory slist_append fuel first cursor headers
        ≡ parse_objects has_memory slist_append more first cursor headers
  unfolding parse_objects
  objects_fuel zero more first cursor headers f m = absurd (omega arith)
  objects_fuel (suc fuel) zero first cursor headers f m = absurd (omega arith)
  objects_fuel (suc fuel) (suc more) first cursor headers f m =
      elim (Option-cases (object_at has_memory slist_append first (skip_ws cursor) headers)) [
        | inl e ↦ rw (e, parse_objects) refl
        | inr ((rest, next), e) ↦
            let short = object_at_short first (skip_ws cursor) headers next rest e in
            rw (e, parse_objects)
              (rw
                (objects_fuel fuel more false rest next (omega (arith, short, skip_ws_short cursor))
                  (omega (arith, short, skip_ws_short cursor)))
                refl)
      ]

  -- Any two numbers of rounds beyond the length of the input give `parse_objects` the same result, and any
  -- two such numbers give `parse_members` the same: the bounds never end the loops of `parse_headers`.
  pub parse_objects_fuel :
      (fuel more : ℕ) (first : Bool) (cursor : List ℕ) (headers : List (List ℕ))
      → length cursor < fuel
      → length cursor < more
      → (parse_objects has_memory slist_append fuel first cursor headers
          ≡ parse_objects has_memory slist_append more first cursor headers)
        × ((fields : HeaderFields)
            → parse_members has_memory fuel first cursor fields
              ≡ parse_members has_memory more first cursor fields)
  parse_objects_fuel fuel more first cursor headers f m = (
    objects_fuel fuel more first cursor headers f m,
    λ fields. parse_members_fuel has_memory fuel more first cursor fields f m,
  )
