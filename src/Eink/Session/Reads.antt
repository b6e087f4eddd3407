-- ===== src/Eink/Session/Reads.antt =====
-- What `read_until_id` reads.
use esp32_fx.Eink.Buffer.Laws.{IsValid, buffer_append_lem}
use esp32_fx.Eink.Buffer.{TextBuffer}
use esp32_fx.Eink.Keys.{
  StringValue, absent, malformed, found, matches, json_string_value, json_integer_value,
}
use esp32_fx.Eink.Session.{
  LineKind, other_line, answer_line, bad_line, Reading, max_protocol_line_bytes, chunk_kind,
  append_text, apply_update, line_kind, read_until_id,
}
use esp32_fx.Prelude.{
  ℕ, ◌≤◌, ◌≡◌, ◌⊎◌, refl, subst, sym, ap, ◌∙◌, inl, inr, Bool, Option, none, some, List, [], ◌∷◌,
  ◌++◌, length, append_assoc, append-nil, ltb, if◌then◌else◌, All, c_string, codes, arith,
  Bool-cases, Option-cases, ℤ,
}

abbrev pub text_bytes : StringValue → List ℕ
text_bytes (found text) = text.bytes
text_bytes _ = []

-- A response that grew by a text, if one is wanted.
abbrev pub Extends : Option TextBuffer → List ℕ → Option TextBuffer → Type 0
Extends none text out = out ≡ none
Extends (some b) text out =
    (c : TextBuffer) × (out ≡ some c) × (IsValid b → (c.bytes ≡ b.bytes ++ text) × IsValid c)

Extends-nil : (r : Option TextBuffer) → Extends r [] r
Extends-nil none = refl
Extends-nil (some b) = (b, refl, λ v. (sym (append-nil b.bytes), v))

Extends-append :
    (r s t : Option TextBuffer) (first second : List ℕ)
    → Extends r first s
    → Extends s second t
    → Extends r (first ++ second) t
Extends-append none none t first second e f = f
Extends-append none (some s) t first second e f = absurd (cc)
Extends-append (some r) none t first second (c, e, _) f = absurd (cc)
Extends-append (some r) (some s) t first second (c, e, law) (d, f, more) =
    let same : s ≡ c = cc (e) in
    (
      d,
      f,
      λ v.
          let (text, valid) = law v in
          let (later, valid') = more (subst IsValid (sym same) valid) in
          (
            later
                ∙ ap (λ (x : TextBuffer). x.bytes ++ second) same
                ∙ ap (λ bytes. bytes ++ second) text
                ∙ append_assoc r.bytes first second,
            valid',
          ),
    )

module _ (has_memory : ℕ → Bool) where
  -- What an update adds to the response.
  abbrev pub update_text : StringValue → List ℕ → List ℕ
  update_text (found update) line =
      if matches update chunk_kind
      then text_bytes (json_string_value has_memory line (codes "text"))
      else []
  update_text _ line = []

  -- What a line adds to the response: the value of its `text`, if it is an update of the kind
  -- `agent_message_chunk`.
  abbrev pub line_text : List ℕ → List ℕ
  line_text raw =
      update_text (json_string_value has_memory (c_string raw) (codes "sessionUpdate"))
        (c_string raw)

  abbrev pub response_text : List (List ℕ) → List ℕ
  response_text [] = []
  response_text (raw ∷ lines) = line_text raw ++ response_text lines

  append_text-Extends :
      (value : StringValue) (b c : TextBuffer)
      → append_text has_memory value b ≡ some c
      → Extends (some b) (text_bytes value) (some c)
  unfolding append_text
  append_text-Extends absent b c e =
      subst (λ (x : TextBuffer). Extends (some b) [] (some x)) (cc (e)) (Extends-nil (some b))
  append_text-Extends malformed b c e = absurd (cc)
  append_text-Extends (found text) b c e =
      (c, refl, λ v. buffer_append_lem has_memory text.bytes b c v e)

  apply_update-Extends :
      (value : StringValue) (line : List ℕ) (r s : Option TextBuffer)
      → apply_update has_memory value line r ≡ some s
      → Extends r (update_text value line) s
  unfolding apply_update
  apply_update-Extends malformed line r s e = absurd (cc)
  apply_update-Extends absent line r s e =
      subst (λ (x : Option TextBuffer). Extends r [] x) (cc (e)) (Extends-nil r)
  apply_update-Extends (found update) line none s e = sym (cc (e))
  apply_update-Extends (found update) line (some b) s e =
      elim (Bool-cases (matches update chunk_kind)) [
        | inl is_chunk ↦
            elim (Option-cases
              (append_text has_memory (json_string_value has_memory line (codes "text")) b)) [
                | inl full ↦ absurd (ground (arith, is_chunk, full, e))
                | inr (longer, appended) ↦
                    let grown : s ≡ some longer = ground (arith, is_chunk, appended, e) in
                    rw (is_chunk, grown)
                      (append_text-Extends (json_string_value has_memory line (codes "text")) b
                        longer appended)
              ]
        | inr other ↦
            let same : s ≡ some b = ground (arith, other, e) in
            rw (other, same) (Extends-nil (some b))
      ]

  module _ (strtol : List ℕ → Option ℤ) (wanted : ℕ) where
    abbrev pub kind_of : List ℕ → LineKind
    kind_of raw =
        line_kind has_memory wanted (c_string raw)
          (json_integer_value has_memory strtol (c_string raw) (codes "id"))

    -- The lines up to an answer, and what they add.
    pub record Reads (lines : List (List ℕ)) (response : Option TextBuffer) (out : Reading)
        : Type 0 where
      pub before : List (List ℕ)
      pub split : lines ≡ before ++ (out.answer ∷ out.rest)
      pub skipped : All (λ raw. kind_of raw ≡ other_line) before
      pub answered : kind_of out.answer ≡ answer_line
      pub short : All (λ raw. length raw ≤ max_protocol_line_bytes) (before ++ (out.answer ∷ []))
      pub extended : Extends response (response_text (before ++ (out.answer ∷ []))) out.response

    LineKind-cases : (k : LineKind) → (k ≡ other_line) ⊎ (k ≡ answer_line) ⊎ (k ≡ bad_line)
    LineKind-cases other_line = inl refl
    LineKind-cases answer_line = inr (inl refl)
    LineKind-cases bad_line = inr (inr refl)

    -- If `read_until_id` succeeds, it has read up to the first line with the wanted `id`; that line has no
    -- `error`, no line is longer than 128 KiB, and the response, if one is wanted, has grown by exactly the
    -- texts of the `agent_message_chunk` updates among the lines read, in order, and is still a valid buffer.
    pub read_until_id-Reads :
        (lines : List (List ℕ)) (response : Option TextBuffer) (out : Reading)
        → read_until_id has_memory strtol wanted lines response ≡ some out
        → Reads lines response out
    unfolding read_until_id
    read_until_id-Reads [] response out e = absurd (cc)
    read_until_id-Reads (raw ∷ lines) response out e =
        let line = c_string raw in
        let update =
          apply_update has_memory (json_string_value has_memory line (codes "sessionUpdate")) line
            response in
        elim (Option-cases (if ltb max_protocol_line_bytes (length raw) then none else update)) [
          | inl stopped ↦ absurd (ground (arith, stopped, e))
          | inr (next, went) ↦
              let fits : length raw ≤ max_protocol_line_bytes = ground (arith, went) in
              let grew : Extends response (line_text raw) next =
                apply_update-Extends (json_string_value has_memory line (codes "sessionUpdate"))
                  line response next (ground (arith, went)) in
              elim (LineKind-cases (kind_of raw)) [
                | inl other ↦
                    let later =
                      read_until_id-Reads lines next out (ground (arith, went, other, e)) in
                    record {
                      before = raw ∷ later.before;
                      split = ap (λ ls. raw ∷ ls) later.split;
                      skipped = (other, later.skipped);
                      answered = later.answered;
                      short = (fits, later.short);
                      extended =
                          Extends-append response next out.response (line_text raw)
                            (response_text (later.before ++ (out.answer ∷ []))) grew later.extended;
                    }
                | inr (inl answer) ↦
                    let here : Reading = record { answer = raw; rest = lines; response = next } in
                    let found_here : some here ≡ some out = ground (arith, went, answer, e) in
                    let same : here ≡ out = cc (found_here) in
                    subst (λ (o : Reading). Reads (raw ∷ lines) response o) same
                      (record {
                        before = [];
                        split = refl;
                        skipped = tt;
                        answered = answer;
                        short = (fits, tt);
                        extended = rw (append-nil (line_text raw)) grew;
                      })
                | inr (inr bad) ↦ absurd (ground (arith, went, bad, e))
              ]
        ]
