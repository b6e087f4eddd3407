-- ===== src/Tools/Fuel.antt =====
-- The parser of the tools' arguments always moves on, so its bounds on rounds never end a loop.
use esp32_fx.Tools.{
  Args, whitespace, take_byte, four_digits, digit_of, unicode_char, escaped_char, string_char,
  string_rest, string_value, field_value, assign_path, assign_content, assign_arg, parse_field,
  parse_fields, file_limit,
}
use esp32_fx.Prelude.{
  ℕ, zero, suc, ◌+◌, ◌*◌, ◌≤◌, ◌<◌, ◌≡◌, refl, sym, ap, inl, inr, Option, none, some, List, [], ◌∷◌,
  ◌++◌, length, same_text, codes, arith, Bool-cases, Option-cases, some_injective, bind-eq-some,
}

whitespace_short : (p : List ℕ) → length (whitespace p) ≤ length p
unfolding whitespace
whitespace_short [] = omega arith
whitespace_short (byte ∷ p) = ground (arith, whitespace_short p)

take_byte_short :
    (wanted : ℕ) (p rest : List ℕ) → take_byte wanted p ≡ some rest → suc (length rest) ≡ length p
unfolding take_byte
take_byte_short wanted [] rest e = absurd (cc)
take_byte_short wanted (byte ∷ p) rest e = ground (arith, e)

four_digits_short :
    (count value : ℕ) (p : List ℕ) (out : ℕ) (rest : List ℕ)
    → four_digits count value p ≡ some (out, rest)
    → length rest ≤ length p
unfolding four_digits
four_digits_short zero value p out rest e = ground (arith, e)
four_digits_short (suc count) value [] out rest e = absurd (cc)
four_digits_short (suc count) value (ch ∷ p) out rest e =
    let (digit, e1, r1) = bind-eq-some (digit_of ch) _ e in
    omega (arith, four_digits_short count (value * 16 + digit) p out rest r1)

unicode_char_short :
    (p : List ℕ) (byte : ℕ) (rest : List ℕ)
    → unicode_char p ≡ some (byte, rest)
    → length rest ≤ length p
unfolding unicode_char
unicode_char_short p byte rest e =
    let ((value, after), e1, r1) = bind-eq-some (four_digits 4 0 p) _ e in
    ground (arith, r1, four_digits_short 4 0 p value after e1)

string_char_short :
    (ch : ℕ) (p : List ℕ) (byte : ℕ) (rest : List ℕ)
    → string_char ch p ≡ some (byte, rest)
    → length rest ≤ length p
unfolding string_char escaped_char
string_char_short ch [] byte rest e = ground (arith, e)
string_char_short ch (c ∷ p) byte rest e = ground (arith, e, unicode_char_short p byte rest)

string_rest_short :
    (fuel cap : ℕ) (p out value rest : List ℕ)
    → string_rest fuel cap p out ≡ some (value, rest)
    → length rest < length p
unfolding string_rest
string_rest_short zero cap p out value rest e = absurd (cc)
string_rest_short (suc fuel) cap [] out value rest e = absurd (cc)
string_rest_short (suc fuel) cap (ch ∷ p) out value rest e =
    elim (Option-cases (string_char ch p)) [
      | inl bad ↦ ground (arith, bad, e)
      | inr ((byte, after), good) ↦ ground (
        arith,
        good,
        e,
        string_char_short ch p byte after good,
        string_rest_short fuel cap after (out ++ (byte ∷ [])) value rest,
      )
    ]

string_rest_fuel :
    (fuel more cap : ℕ) (p out : List ℕ)
    → length p < fuel
    → length p < more
    → string_rest fuel cap p out ≡ string_rest more cap p out
unfolding string_rest
string_rest_fuel zero more cap p out f m = absurd (omega arith)
string_rest_fuel (suc fuel) zero cap p out f m = absurd (omega arith)
string_rest_fuel (suc fuel) (suc more) cap [] out f m = refl
string_rest_fuel (suc fuel) (suc more) cap (ch ∷ p) out f m =
    elim (Option-cases (string_char ch p)) [
      | inl bad ↦ rw (bad, string_rest) refl
      | inr ((byte, after), good) ↦
          let short = string_char_short ch p byte after good in
          rw (good, string_rest)
            (rw
              (string_rest_fuel fuel more cap after (out ++ (byte ∷ [])) (omega (arith, short))
                (omega (arith, short)))
              refl)
    ]

string_value_short :
    (cap : ℕ) (p value rest : List ℕ)
    → string_value cap p ≡ some (value, rest)
    → length rest < length p
unfolding string_value
string_value_short cap p value rest e =
    let (start, e1, r1) = bind-eq-some (take_byte b'"' p) _ e in
    omega (
      arith,
      take_byte_short b'"' p start e1,
      string_rest_short (suc (length start)) cap start [] value rest r1,
    )

field_value_short :
    (cap : ℕ) (field : Option (List ℕ)) (p value rest : List ℕ)
    → field_value cap field p ≡ some (value, rest)
    → length rest < length p
unfolding field_value
field_value_short cap (some old) p value rest e = absurd (cc)
field_value_short cap none p value rest e =
    let (after, e1, r1) = bind-eq-some (take_byte b':' (whitespace p)) _ e in
    omega (
      arith,
      take_byte_short b':' (whitespace p) after e1,
      whitespace_short p,
      whitespace_short after,
      string_value_short cap (whitespace after) value rest r1,
    )

assign_path_short :
    (p : List ℕ) (args args' : Args) (rest : List ℕ)
    → assign_path p args ≡ some (args', rest)
    → length rest < length p
unfolding assign_path
assign_path_short p args args' rest e =
    let ((value, after), e1, r1) = bind-eq-some (field_value 32 args.path p) _ e in
    let same : after ≡ rest =
      ap (λ (r : Args × List ℕ). r.1)
        (some_injective (record args { path = some value }, after) (args', rest) r1) in
    rw (sym same) (field_value_short 32 args.path p value after e1)

assign_content_short :
    (p : List ℕ) (args args' : Args) (rest : List ℕ)
    → assign_content p args ≡ some (args', rest)
    → length rest < length p
unfolding assign_content
assign_content_short p args args' rest e =
    let ((value, after), e1, r1) = bind-eq-some (field_value (file_limit + 1) args.content p) _ e in
    let same : after ≡ rest =
      ap (λ (r : Args × List ℕ). r.1)
        (some_injective (record args { content = some value }, after) (args', rest) r1) in
    rw (sym same) (field_value_short (file_limit + 1) args.content p value after e1)

assign_arg_short :
    (key p : List ℕ) (args args' : Args) (rest : List ℕ)
    → assign_arg key p args ≡ some (args', rest)
    → length rest < length p
unfolding assign_arg
assign_arg_short key p args args' rest e = elim (Bool-cases (same_text key (codes "path"))) [
  | inl path ↦ assign_path_short p args args' rest (ground (arith, path, e))
  | inr other ↦ elim (Bool-cases (same_text key (codes "content"))) [
    | inl content ↦ assign_content_short p args args' rest (ground (arith, other, content, e))
    | inr unknown ↦ absurd (ground (arith, other, unknown, e))
  ]
]

parse_field_short :
    (p : List ℕ) (args args' : Args) (rest : List ℕ)
    → parse_field p args ≡ some (args', rest)
    → length rest < length p
unfolding parse_field
parse_field_short p args args' rest e =
    let ((key, after_key), e1, r1) = bind-eq-some (string_value 16 p) _ e in
    let ((args1, after), e2, r2) = bind-eq-some (assign_arg key after_key args) _ r1 in
    let same : whitespace after ≡ rest =
      ap (λ (r : Args × List ℕ). r.1) (some_injective (args1, whitespace after) (args', rest) r2) in
    rw (sym same) (
      omega (
        arith,
        string_value_short 16 p key after_key e1,
        assign_arg_short key after_key args args1 after e2,
        whitespace_short after,
      ))

fields_fuel :
    (fuel more : ℕ) (p : List ℕ) (args : Args)
    → length p < fuel
    → length p < more
    → parse_fields fuel p args ≡ parse_fields more p args
unfolding parse_fields
fields_fuel zero more p args f m = absurd (omega arith)
fields_fuel (suc fuel) zero p args f m = absurd (omega arith)
fields_fuel (suc fuel) (suc more) p args f m = elim (Option-cases (parse_field p args)) [
  | inl e ↦ rw (e, parse_fields) refl
  | inr ((args', []), e) ↦ rw (e, parse_fields) refl
  | inr ((args', (byte ∷ rest)), e) ↦
      let short : suc (length rest) < length p = parse_field_short p args args' (byte ∷ rest) e in
      rw (e, parse_fields)
        (rw
          (fields_fuel fuel more (whitespace rest) args'
            (omega (arith, short, whitespace_short rest))
            (omega (arith, short, whitespace_short rest)))
          refl)
]

-- Any two numbers of rounds beyond the length of the input give `parse_fields` the same result, and give
-- the loop of `string_value` the same: the bounds never end a loop of `parse_args`.
pub parse_fields_fuel :
    (fuel more : ℕ) (p : List ℕ)
    → length p < fuel
    → length p < more
    → ((args : Args) → parse_fields fuel p args ≡ parse_fields more p args)
      × ((cap : ℕ) (out : List ℕ) → string_rest fuel cap p out ≡ string_rest more cap p out)
parse_fields_fuel fuel more p f m =
    (λ args. fields_fuel fuel more p args f m, λ cap out. string_rest_fuel fuel more cap p out f m)
