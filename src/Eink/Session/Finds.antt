-- ===== src/Eink/Session/Finds.antt =====
-- When `read_until_id` succeeds.
use esp32_fx.Eink.Buffer.Laws.{IsValid, buffer_append_lem, buffer_append_total}
use esp32_fx.Eink.Buffer.{TextBuffer, max_response_bytes}
use esp32_fx.Eink.Keys.{
  StringValue, absent, malformed, found, missing, invalid, number, matches, find_json_key,
  json_integer_value, json_string_value,
}
use esp32_fx.Eink.Session.Reads.{text_bytes, update_text, line_text, response_text, kind_of}
use esp32_fx.Eink.Session.{
  other_line, answer_line, bad_line, is_id, line_kind, max_protocol_line_bytes, chunk_kind,
  append_text, apply_update, read_until_id,
}
use esp32_fx.Prelude.{
  ℕ, ◌+◌, ◌≤◌, ◌≡◌, ◌≢◌, refl, sym, ap, ◌∙◌, inl, inr, Bool, true, Option, none, some, List, [],
  ◌∷◌, ◌++◌, length, append-nil, append_assoc, length-append, ltb, if◌then◌else◌, All, c_string,
  codes, arith, Bool-cases, Option-cases, ℤ, pos, negsuc, false, ◌==◌, ◌⊎◌,
}

-- A response that a step appended to.
abbrev Appended : TextBuffer → List ℕ → Option TextBuffer → Type 0
Appended b text out = (c : TextBuffer) × (out ≡ some c) × (c.bytes ≡ b.bytes ++ text) × IsValid c

module _ (has_memory : ℕ → Bool) (memory : (n : ℕ) → has_memory n ≡ true) where
  append_text_total :
      (value : StringValue) (b : TextBuffer)
      → IsValid b
      → value ≢ malformed
      → length b.bytes + length (text_bytes value) ≤ max_response_bytes
      → Appended b (text_bytes value) (append_text has_memory value b)
  unfolding append_text
  append_text_total absent b v good fits = (b, refl, sym (append-nil b.bytes), v)
  append_text_total malformed b v good fits = absurd (good refl)
  append_text_total (found text) b v good fits =
      let (c, e) = buffer_append_total has_memory text.bytes b v memory fits in
      let (bytes, valid) = buffer_append_lem has_memory text.bytes b c v e in (c, e, bytes, valid)

  apply_update_total :
      (value : StringValue) (line : List ℕ) (b : TextBuffer)
      → IsValid b
      → value ≢ malformed
      → json_string_value has_memory line (codes "text") ≢ malformed
      → length b.bytes + length (update_text has_memory value line) ≤ max_response_bytes
      → (c : TextBuffer) × (apply_update has_memory value line (some b) ≡ some (some c))
        × (c.bytes ≡ b.bytes ++ update_text has_memory value line)
        × IsValid c
  unfolding apply_update
  apply_update_total absent line b v good text_good fits = (b, refl, sym (append-nil b.bytes), v)
  apply_update_total malformed line b v good text_good fits = absurd (good refl)
  apply_update_total (found update) line b v good text_good fits =
      elim (Bool-cases (matches update chunk_kind)) [
        | inr other ↦ rw other (b, refl, sym (append-nil b.bytes), v)
        | inl is_chunk ↦
            let text = json_string_value has_memory line (codes "text") in
            let (c, e, bytes, valid) =
              append_text_total text b v text_good (ground (arith, fits, is_chunk)) in
            rw is_chunk (c, rw e refl, bytes, valid)
      ]

  -- A line that is not too long, and whose strings can be decoded.
  pub record IsReadable (raw : List ℕ) : Type 0 where
    pub short : length raw ≤ max_protocol_line_bytes
    pub update_decodes :
        json_string_value has_memory (c_string raw) (codes "sessionUpdate") ≢ malformed
    pub text_decodes : json_string_value has_memory (c_string raw) (codes "text") ≢ malformed

  module _ (strtol : List ℕ → Option ℤ) (wanted : ℕ) where
    step_total :
        (raw : List ℕ) (b : TextBuffer)
        → IsValid b
        → IsReadable raw
        → length b.bytes + length (line_text has_memory raw) ≤ max_response_bytes
        → (c : TextBuffer) × (c.bytes ≡ b.bytes ++ line_text has_memory raw)
          × IsValid c
          × ((if ltb max_protocol_line_bytes (length raw)
                then none
                else apply_update has_memory
                    (json_string_value has_memory (c_string raw) (codes "sessionUpdate"))
                    (c_string raw)
                    (some b))
              ≡ some (some c))
    step_total raw b v readable fits =
        let (c, e, bytes, valid) =
          apply_update_total (json_string_value has_memory (c_string raw) (codes "sessionUpdate"))
            (c_string raw) b v readable.update_decodes readable.text_decodes fits in
        (c, bytes, valid, ground (arith, readable.short, e))

    -- The response behind a line.
    abbrev next_response : List ℕ → Option TextBuffer → Option (Option TextBuffer)
    next_response raw response =
        if ltb max_protocol_line_bytes (length raw)
        then none
        else apply_update has_memory
            (json_string_value has_memory (c_string raw) (codes "sessionUpdate")) (c_string raw)
            response

    -- Without an `id`, or with an `id` that is another integer.
    abbrev pub IsOther : List ℕ → Type 0
    IsOther raw =
        let id = json_integer_value has_memory strtol (c_string raw) (codes "id") in
        (id ≡ missing) ⊎ ((n : ℤ) × (id ≡ number n) × (n ≢ pos wanted))

    -- With the wanted `id`, and without a key `error`.
    abbrev pub IsAnswer : List ℕ → Type 0
    IsAnswer raw =
        (json_integer_value has_memory strtol (c_string raw) (codes "id") ≡ number (pos wanted))
        × (find_json_key has_memory (c_string raw) (codes "error") ≡ none)

    -- With an `id` that is no integer, or with the wanted `id` and a key `error`.
    abbrev pub IsError : List ℕ → Type 0
    IsError raw =
        let id = json_integer_value has_memory strtol (c_string raw) (codes "id") in
        (id ≡ invalid)
        ⊎ ((id ≡ number (pos wanted))
            × (value : List ℕ) × (find_json_key has_memory (c_string raw) (codes "error")
                ≡ some value))

    is_id-other : (n : ℤ) → n ≢ pos wanted → is_id n wanted ≡ false
    unfolding is_id
    is_id-other (pos n) other = elim (Bool-cases (n == wanted)) [
      | inl same ↦ absurd (other (ap pos (ground (arith, same))))
      | inr differs ↦ differs
    ]
    is_id-other (negsuc n) other = refl

    kind_of-IsOther :
        (raw : List ℕ) → IsOther raw → kind_of has_memory strtol wanted raw ≡ other_line
    unfolding line_kind
    kind_of-IsOther raw (inl e) = rw (e, line_kind) refl
    kind_of-IsOther raw (inr (n, e, other)) = rw (e, line_kind, is_id-other n other) refl

    is_id-wanted : is_id (pos wanted) wanted ≡ true
    unfolding is_id
    is_id-wanted = ground arith

    kind_of-IsAnswer :
        (raw : List ℕ) → IsAnswer raw → kind_of has_memory strtol wanted raw ≡ answer_line
    unfolding line_kind
    kind_of-IsAnswer raw (e, no_error) = rw (e, line_kind, is_id-wanted, no_error) refl

    kind_of-IsError : (raw : List ℕ) → IsError raw → kind_of has_memory strtol wanted raw ≡ bad_line
    unfolding line_kind
    kind_of-IsError raw (inl e) = rw (e, line_kind) refl
    kind_of-IsError raw (inr (e, value, error)) = rw (e, line_kind, is_id-wanted, error) refl

    All-IsOther :
        (before : List (List ℕ))
        → All IsOther before
        → All (λ raw. kind_of has_memory strtol wanted raw ≡ other_line) before
    All-IsOther [] others = tt
    All-IsOther (raw ∷ before) (other, others) =
        (kind_of-IsOther raw other, All-IsOther before others)

    -- A line that ends the reading gives no result, whatever the lines before it add.
    read_until_id_fails :
        (before rest : List (List ℕ)) (bad : List ℕ) (response : Option TextBuffer)
        → All (λ raw. kind_of has_memory strtol wanted raw ≡ other_line) before
        → kind_of has_memory strtol wanted bad ≡ bad_line
        → read_until_id has_memory strtol wanted (before ++ (bad ∷ rest)) response ≡ none
    unfolding read_until_id
    read_until_id_fails [] rest bad response others ends =
        elim (Option-cases (next_response bad response)) [
          | inl e ↦ rw (e, read_until_id) refl
          | inr (next, e) ↦ rw (e, ends, read_until_id) refl
        ]
    read_until_id_fails (raw ∷ before) rest bad response others ends =
        elim (Option-cases (next_response raw response)) [
          | inl e ↦ rw (e, read_until_id) refl
          | inr (next, e) ↦
              rw (e, others.0, read_until_id)
                (read_until_id_fails before rest bad next others.1 ends)
        ]

    read_until_id_finds :
        (before rest : List (List ℕ)) (answer : List ℕ) (b : TextBuffer)
        → IsValid b
        → All (λ raw. kind_of has_memory strtol wanted raw ≡ other_line) before
        → kind_of has_memory strtol wanted answer ≡ answer_line
        → All IsReadable (before ++ (answer ∷ []))
        → length b.bytes + length (response_text has_memory (before ++ (answer ∷ [])))
          ≤ max_response_bytes
        → (c : TextBuffer) × (c.bytes
            ≡ b.bytes ++ response_text has_memory (before ++ (answer ∷ [])))
          × (read_until_id has_memory strtol wanted (before ++ (answer ∷ rest)) (some b)
              ≡ some (record { answer = answer; rest = rest; response = some c }))
    unfolding read_until_id
    read_until_id_finds [] rest answer b v others found_it readable fits =
        let (c, bytes, valid, e) =
          step_total answer b v readable.0
            (omega (arith, fits, length-append (line_text has_memory answer) [])) in
        (
          c,
          bytes ∙ ap (λ text. b.bytes ++ text) (sym (append-nil (line_text has_memory answer))),
          rw (e, found_it, read_until_id) refl,
        )
    read_until_id_finds (raw ∷ before) rest answer b v others found_it readable fits =
        let more = response_text has_memory (before ++ (answer ∷ [])) in
        let (c, bytes, valid, e) =
          step_total raw b v readable.0
            (omega (arith, fits, length-append (line_text has_memory raw) more)) in
        let (d, later, found_later) =
          read_until_id_finds before rest answer c valid others.1 found_it readable.1 (
            omega (
              arith,
              fits,
              ap (λ (text : List ℕ). length text) bytes,
              length-append b.bytes (line_text has_memory raw),
              length-append (line_text has_memory raw) more,
            )) in
        (
          d,
          later
              ∙ ap (λ text. text ++ more) bytes
              ∙ append_assoc b.bytes (line_text has_memory raw) more,
          rw (e, others.0, read_until_id) found_later,
        )

    -- While memory lasts, if the lines before one have no `id`, or an integer other than the wanted one, and
    -- those lines and it are readable and their texts fit the response, then `read_until_id` with a valid
    -- response goes by that line. If its `id` is the wanted one and it has no `error`, it returns that line,
    -- the lines behind it, and the response with those texts. If its `id` is no integer, or is the wanted one
    -- and it has an `error`, it fails.
    pub read_until_id_total :
        (before rest : List (List ℕ)) (last : List ℕ) (b : TextBuffer)
        → IsValid b
        → All IsOther before
        → (IsAnswer last) ⊎ (IsError last)
        → All IsReadable (before ++ (last ∷ []))
        → length b.bytes + length (response_text has_memory (before ++ (last ∷ [])))
          ≤ max_response_bytes
        → (IsAnswer last
            × (c : TextBuffer) × (c.bytes
                ≡ b.bytes ++ response_text has_memory (before ++ (last ∷ [])))
            × (read_until_id has_memory strtol wanted (before ++ (last ∷ rest)) (some b)
                ≡ some (record { answer = last; rest = rest; response = some c })))
          ⊎ (IsError last
              × (read_until_id has_memory strtol wanted (before ++ (last ∷ rest)) (some b) ≡ none))
    read_until_id_total before rest last b v others (inl answers) readable fits =
        let (c, bytes, returned) =
          read_until_id_finds before rest last b v (All-IsOther before others)
            (kind_of-IsAnswer last answers) readable fits in
        inl (answers, c, bytes, returned)
    read_until_id_total before rest last b v others (inr errs) readable fits = inr (
      errs,
      read_until_id_fails before rest last (some b) (All-IsOther before others)
          (kind_of-IsError last errs),
    )
