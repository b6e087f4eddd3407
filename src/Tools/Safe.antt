-- ===== src/Tools/Safe.antt =====
-- What the example tools may touch.
use esp32_fx.Tools.{
  Args, no_args, Decision, denied, reads_file, writes_battery, Tool, read_project, replace_battery,
  run_tests, file_limit, whitespace, take_byte, four_digits, is_text, unicode_char, escaped_char,
  string_char, string_rest, string_value, field_value, assign_path, assign_content, assign_arg,
  parse_field, parse_fields, parse_body, parse_object, parse_args, tool_of, decide, tool_decision,
}
use esp32_fx.Prelude.{
  ℕ, zero, suc, ◌+◌, ◌≤◌, ◌<◌, ◌≡◌, ◌⊎◌, sym, ap, ◌∙◌, inl, inr, not, ◌&&◌, ◌||◌, Option, none,
  some, List, [], ◌∷◌, ◌++◌, length, length-append, ◌==◌, if◌then◌else◌, All, All-append, same_text,
  same_text_eq, codes, arith, Bool-cases, Option-cases, some_injective, bind-eq-some,
}

-- A character of a shell script: a tab, a line break, or printable ASCII.
abbrev pub IsText : ℕ → Type 0
IsText byte = (byte ≡ 9) ⊎ (byte ≡ 10) ⊎ (byte ≡ 13) ⊎ ((32 ≤ byte) × (byte ≤ 126))

unicode_char-IsText :
    (p rest : List ℕ) (byte : ℕ) → unicode_char p ≡ some (byte, rest) → IsText byte
unfolding unicode_char is_text
unicode_char-IsText p rest byte e =
    let ((value, after), e1, r1) = bind-eq-some (four_digits 4 0 p) _ e in ground (arith, r1)

escaped_char-IsText :
    (p rest : List ℕ) (byte : ℕ) → escaped_char p ≡ some (byte, rest) → IsText byte
unfolding escaped_char
escaped_char-IsText [] rest byte e = absurd (cc)
escaped_char-IsText (ch ∷ p) rest byte e = ground (arith, e, unicode_char-IsText p rest byte)

string_char-IsText :
    (ch : ℕ) (p rest : List ℕ) (byte : ℕ) → string_char ch p ≡ some (byte, rest) → IsText byte
unfolding string_char
string_char-IsText ch p rest byte e = ground (arith, e, escaped_char-IsText p rest byte)

string_rest-IsText :
    (fuel cap : ℕ) (p out value rest : List ℕ)
    → All IsText out
    → length out < cap
    → string_rest fuel cap p out ≡ some (value, rest)
    → All IsText value × (length value < cap)
unfolding string_rest
string_rest-IsText zero cap p out value rest text fits e = absurd (cc)
string_rest-IsText (suc fuel) cap [] out value rest text fits e = absurd (cc)
string_rest-IsText (suc fuel) cap (ch ∷ p) out value rest text fits e =
    elim (Bool-cases (ch == b'"')) [
      | inl done ↦ let same : out ≡ value = ground (arith, done, e) in rw (sym same) (text, fits)
      | inr on ↦ elim (Option-cases (string_char ch p)) [
        | inl bad ↦ absurd (ground (arith, on, bad, e))
        | inr ((byte, after), good) ↦
            string_rest-IsText fuel cap after (out ++ (byte ∷ [])) value rest
              (All-append IsText out (byte ∷ []) text (string_char-IsText ch p after byte good, tt))
              (ground (arith, on, good, e, length-append out (byte ∷ [])))
              (ground (arith, on, good, e))
      ]
    ]

string_value-IsText :
    (cap : ℕ) (p value rest : List ℕ)
    → 0 < cap
    → string_value cap p ≡ some (value, rest)
    → All IsText value × (length value < cap)
unfolding string_value
string_value-IsText cap p value rest room e =
    let (start, e1, r1) = bind-eq-some (take_byte b'"' p) _ e in
    string_rest-IsText (suc (length start)) cap start [] value rest tt room r1

-- The content of the arguments, if there is one, is text that fits its block.
abbrev GoodContent : Args → Type 0
GoodContent args =
    (content : List ℕ)
    → args.content ≡ some content
    → All IsText content × (length content < file_limit + 1)

field_value-IsText :
    (cap : ℕ) (field : Option (List ℕ)) (p value rest : List ℕ)
    → 0 < cap
    → field_value cap field p ≡ some (value, rest)
    → All IsText value × (length value < cap)
unfolding field_value
field_value-IsText cap (some old) p value rest room e = absurd (cc)
field_value-IsText cap none p value rest room e =
    let (after, e1, r1) = bind-eq-some (take_byte b':' (whitespace p)) _ e in
    string_value-IsText cap (whitespace after) value rest room r1

assign_path-GoodContent :
    (p : List ℕ) (args args' : Args) (rest : List ℕ)
    → GoodContent args
    → assign_path p args ≡ some (args', rest)
    → GoodContent args'
unfolding assign_path
assign_path-GoodContent p args args' rest good e content has =
    let ((value, after), e1, r1) = bind-eq-some (field_value 32 args.path p) _ e in
    let same : args.content ≡ args'.content =
      ap (λ (r : Args × List ℕ). r.0.content)
        (some_injective (record args { path = some value }, after) (args', rest) r1) in
    good content (same ∙ has)

assign_content-GoodContent :
    (p : List ℕ) (args args' : Args) (rest : List ℕ)
    → assign_content p args ≡ some (args', rest)
    → GoodContent args'
unfolding assign_content
assign_content-GoodContent p args args' rest e content has =
    let ((value, after), e1, r1) = bind-eq-some (field_value (file_limit + 1) args.content p) _ e in
    let same : some value ≡ args'.content =
      ap (λ (r : Args × List ℕ). r.0.content)
        (some_injective (record args { content = some value }, after) (args', rest) r1) in
    rw (sym (some_injective value content (same ∙ has)))
      (field_value-IsText (file_limit + 1) args.content p value after (omega arith) e1)

assign_arg-GoodContent :
    (key p : List ℕ) (args args' : Args) (rest : List ℕ)
    → GoodContent args
    → assign_arg key p args ≡ some (args', rest)
    → GoodContent args'
unfolding assign_arg
assign_arg-GoodContent key p args args' rest good e =
    elim (Bool-cases (same_text key (codes "path"))) [
      | inl path ↦ assign_path-GoodContent p args args' rest good (ground (arith, path, e))
      | inr other ↦ elim (Bool-cases (same_text key (codes "content"))) [
        | inl content ↦
            assign_content-GoodContent p args args' rest (ground (arith, other, content, e))
        | inr unknown ↦ absurd (ground (arith, other, unknown, e))
      ]
    ]

parse_field-GoodContent :
    (p : List ℕ) (args args' : Args) (rest : List ℕ)
    → GoodContent args
    → parse_field p args ≡ some (args', rest)
    → GoodContent args'
unfolding parse_field
parse_field-GoodContent p args args' rest good e =
    let ((key, after_key), e1, r1) = bind-eq-some (string_value 16 p) _ e in
    let ((args1, after), e2, r2) = bind-eq-some (assign_arg key after_key args) _ r1 in
    let same : args1 ≡ args' =
      ap (λ (r : Args × List ℕ). r.0) (some_injective (args1, whitespace after) (args', rest) r2) in
    rw (sym same) (assign_arg-GoodContent key after_key args args1 after good e2)

parse_fields-GoodContent :
    (fuel : ℕ) (p : List ℕ) (args args' : Args) (rest : List ℕ)
    → GoodContent args
    → parse_fields fuel p args ≡ some (args', rest)
    → GoodContent args'
unfolding parse_fields
parse_fields-GoodContent zero p args args' rest good e = absurd (cc)
parse_fields-GoodContent (suc fuel) p args args' rest good e =
    elim (Option-cases (parse_field p args)) [
      | inl bad ↦ absurd (ground (arith, bad, e))
      | inr ((args1, []), f) ↦ absurd (ground (arith, f, e))
      | inr ((args1, (byte ∷ after)), f) ↦
          let next : GoodContent args1 =
            parse_field-GoodContent p args args1 (byte ∷ after) good f in
          elim (Bool-cases (byte == b',')) [
            | inl comma ↦
                parse_fields-GoodContent fuel (whitespace after) args1 args' rest next
                  (ground (arith, f, comma, e))
            | inr last ↦ let same : args1 ≡ args' = ground (arith, f, last, e) in rw (sym same) next
          ]
    ]

no_args-GoodContent : GoodContent no_args
no_args-GoodContent content has = absurd (cc)

parse_body-GoodContent :
    (p rest : List ℕ) (args : Args) → parse_body p ≡ some (args, rest) → GoodContent args
unfolding parse_body
parse_body-GoodContent [] rest args e =
    let same : no_args ≡ args =
      ap (λ (r : Args × List ℕ). r.0) (some_injective (no_args, []) (args, rest) e) in
    rw (sym same) no_args-GoodContent
parse_body-GoodContent (byte ∷ p) rest args e = elim (Bool-cases (byte == b'}')) [
  | inl empty ↦
      let same : no_args ≡ args = ground (arith, empty, e) in rw (sym same) no_args-GoodContent
  | inr fields ↦
      parse_fields-GoodContent (suc (suc (length p))) (byte ∷ p) no_args args rest
        no_args-GoodContent (ground (arith, fields, e))
]

parse_args-GoodContent : (p : List ℕ) (args : Args) → parse_args p ≡ some args → GoodContent args
unfolding parse_args parse_object
parse_args-GoodContent p args e =
    let object : parse_object p ≡ some args = ground (arith, e) in
    let (start, e1, r1) = bind-eq-some (take_byte b'{' (whitespace p)) _ object in
    let ((args1, rest), e2, r2) = bind-eq-some (parse_body (whitespace start)) _ r1 in
    let (last, e3, r3) = bind-eq-some (take_byte b'}' rest) _ r2 in
    let same : args1 ≡ args = ground (arith, r3) in
    rw (sym same) (parse_body-GoodContent (whitespace start) rest args1 e2)

-- What a decision allows: to read one of three files, or to write a text that is not empty and has at most
-- 4,096 characters of a shell script.
abbrev pub Allowed : Decision → Type 0
Allowed (reads_file path) =
    (path ≡ codes "battery.sh") ⊎ (path ≡ codes "SPEC.md") ⊎ (path ≡ codes "test.sh")
Allowed (writes_battery content) =
    (0 < length content) × (length content ≤ file_limit) × All IsText content
Allowed _ = Unit {0}

may_read :
    (path : List ℕ)
    → Allowed (
        if not (same_text path (codes "battery.sh"))
          && (not (same_text path (codes "SPEC.md")) && not (same_text path (codes "test.sh")))
        then denied
        else reads_file path)
may_read path = elim (Bool-cases (same_text path (codes "battery.sh"))) [
  | inl e ↦ rw e (inl (same_text_eq path (codes "battery.sh") e))
  | inr e ↦ elim (Bool-cases (same_text path (codes "SPEC.md"))) [
    | inl f ↦ rw (e, f) (inr (inl (same_text_eq path (codes "SPEC.md") f)))
    | inr f ↦ elim (Bool-cases (same_text path (codes "test.sh"))) [
      | inl g ↦ rw (e, f, g) (inr (inr (same_text_eq path (codes "test.sh") g)))
      | inr g ↦ rw (e, f, g) tt
    ]
  ]
]

may_write :
    (path content : List ℕ)
    → All IsText content × (length content < file_limit + 1)
    → Allowed (
        if not (same_text path (codes "battery.sh")) || length content == 0
        then denied
        else writes_battery content)
may_write path content good =
    elim (Bool-cases (not (same_text path (codes "battery.sh")) || length content == 0)) [
      | inl refused ↦ rw refused tt
      | inr fine ↦ rw fine (ground (arith, fine), ground (arith, good), good.0)
    ]

decide-Allowed : (tool : Tool) (args : Args) → GoodContent args → Allowed (decide tool args)
unfolding decide
decide-Allowed read_project args good = elim (Option-cases args.content) [
  | inr (content, c) ↦ rw (c, decide) tt
  | inl c ↦ elim (Option-cases args.path) [
    | inl p ↦ rw (c, decide, p) tt
    | inr (path, p) ↦ rw (c, decide, p) (may_read path)
  ]
]
decide-Allowed replace_battery args good = elim (Option-cases args.path) [
  | inl p ↦ rw (p, decide) tt
  | inr (path, p) ↦ elim (Option-cases args.content) [
    | inl c ↦ rw (p, decide, c) tt
    | inr (content, c) ↦ rw (p, decide, c) (may_write path content (good content c))
  ]
]
decide-Allowed run_tests args good = elim (Option-cases args.path) [
  | inr (path, p) ↦ rw (p, decide) tt
  | inl p ↦ elim (Option-cases args.content) [
    | inl c ↦ rw (p, decide, c) tt
    | inr (content, c) ↦ rw (p, decide, c) tt
  ]
]

-- Whatever name and arguments the guest gives, the decision is allowed: a file that is read is battery.sh,
-- SPEC.md or test.sh, and what is written to battery.sh is not empty, has at most 4,096 bytes, and holds
-- tabs, line breaks and printable ASCII alone.
pub tool_decision-Allowed : (name arguments : List ℕ) → Allowed (tool_decision name arguments)
unfolding tool_decision
tool_decision-Allowed name arguments = elim (Option-cases (tool_of name)) [
  | inl t ↦ rw (t, tool_decision) tt
  | inr (tool, t) ↦ elim (Option-cases (parse_args arguments)) [
    | inl p ↦ rw (t, tool_decision, p) tt
    | inr (args, p) ↦
        rw (t, tool_decision, p)
          (decide-Allowed tool args (parse_args-GoodContent arguments args p))
  ]
]
