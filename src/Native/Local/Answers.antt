-- ===== src/Native/Local/Answers.antt =====
-- What a local answer puts into the response.
use esp32_fx.Eink.Json.RoundTrip.{quoted, escaped_text}
use esp32_fx.Eink.Json.{escaped, hex_digit}
use esp32_fx.Native.Local.Appending.{Appends, &>-Appends, write_some-Appends, append-Appends}
use esp32_fx.Native.Local.{
  Environment, Served, not_local, failed, served, is_model_id_safe, model_chars_safe, asks_catalog,
  catalog_prefix, catalog_tail, fixture_prefix, fixture_suffix, max_fixture_bytes, sink_escaped,
  ◌&>◌, write_some, serve_local_model_catalog, append, append_escaped, sink_append_json_string,
  serve_fixture, serve_fixture_chat,
}
use esp32_fx.Native.Sink.Write.{IsValid}
use esp32_fx.Native.Sink.{ByteSink, received, KeepsBytes}
use esp32_fx.Prelude.{
  ℕ, ◌+◌, ◌≡◌, refl, sym, ap, ◌∙◌, inl, inr, Bool, true, false, not, ◌||◌, Option, none, some, List,
  [], ◌∷◌, ◌++◌, length, append_assoc, append-nil, ltb, ◌==◌, if◌then◌else◌, arith, Bool-cases,
  Option-cases, same_text, codes,
}

-- The bridge and the client escape a byte in the same way.
pub sink_escaped-eq : (ch : ℕ) → sink_escaped ch ≡ escaped ch
unfolding sink_escaped escaped hex_digit
sink_escaped-eq ch = ground arith

-- What an answer does: it is the whole text with status 200, or the request is not a local one and the
-- sink is as it was, or it failed.
pub record Answers (s : ByteSink) (text : List ℕ) (out : Served × ByteSink) : Type 0 where
  pub valid : IsValid out.1
  pub same_cap : out.1.cap ≡ s.cap
  pub same_owned : out.1.owned ≡ s.owned
  pub whole :
      (status : ℕ) → out.0 ≡ served status → (status ≡ 200) × (received out.1 ≡ received s ++ text)
  pub passed : out.0 ≡ not_local → out.1 ≡ s

not_local-Answers : (s : ByteSink) (text : List ℕ) → IsValid s → Answers s text (not_local, s)
not_local-Answers s text v = record {
  valid = v;
  same_cap = refl;
  same_owned = refl;
  whole = λ status e. absurd (cc);
  passed = λ e. refl;
}

failed-Answers : (s : ByteSink) (text : List ℕ) → IsValid s → Answers s text (failed, s)
failed-Answers s text v = record {
  valid = v;
  same_cap = refl;
  same_owned = refl;
  whole = λ status e. absurd (cc);
  passed = λ e. refl;
}

-- A chain of writes that is served if it succeeded.
chain-Answers :
    (s : ByteSink) (text : List ℕ) (out : Bool × ByteSink)
    → Appends s text out
    → Answers s text (if out.0 then (served 200, out.1) else (failed, out.1))
chain-Answers s text (true, t) a = record {
  valid = a.valid;
  same_cap = a.same_cap;
  same_owned = a.same_owned;
  whole = λ status e. (ground arith, a.appended refl);
  passed = λ e. absurd (cc);
}
chain-Answers s text (false, t) a = record {
  valid = a.valid;
  same_cap = a.same_cap;
  same_owned = a.same_owned;
  whole = λ status e. absurd (cc);
  passed = λ e. absurd (cc);
}

-- The characters of a model's name need no escape.
model_chars-escaped_text :
    (n : ℕ) (model : List ℕ) → model_chars_safe n model ≡ true → escaped_text model ≡ model
unfolding model_chars_safe escaped
model_chars-escaped_text n [] e = refl
model_chars-escaped_text n (ch ∷ model) e = ground (arith, model_chars-escaped_text (n + 1) model)

-- The catalogue of one model, as JSON.
abbrev pub catalog_text : List ℕ → List ℕ
catalog_text model =
    codes "{\"object\":\"list\",\"data\":[{\"id\":"
    ++ (quoted model ++ codes ",\"type\":\"language\",\"tags\":[]}]}")

-- The text of a variable that is set, and nothing of one that is not.
abbrev pub text_of : Option (List ℕ) → List ℕ
text_of none = []
text_of (some text) = text

-- The events of the fixture: the text, the end, and the mark of the end.
abbrev pub fixture_events : List ℕ → List ℕ
fixture_events text = fixture_prefix ++ (quoted text ++ fixture_suffix)

pub catalog_text-eq :
    (model : List ℕ)
    → is_model_id_safe model ≡ true
    → (catalog_prefix ++ model) ++ catalog_tail ≡ catalog_text model
unfolding is_model_id_safe
catalog_text-eq model safe =
    let rest : List ℕ = codes ",\"type\":\"language\",\"tags\":[]}]}" in
    append_assoc catalog_prefix model catalog_tail
    ∙ ap (λ m. catalog_prefix ++ (m ++ catalog_tail)) (sym (model_chars-escaped_text 0 model safe))
    ∙ ap (λ end. catalog_prefix ++ end) (sym (append_assoc (escaped_text model) (b'"' ∷ []) rest))

module _ (realloc : List ℕ → ℕ → Option (List ℕ)) (keeps : KeepsBytes realloc) where
  append_escaped-Appends :
      (text : List ℕ) (s : ByteSink)
      → IsValid s
      → Appends s (escaped_text text) (append_escaped realloc text s)
  unfolding append_escaped
  append_escaped-Appends [] s v = record {
    valid = v;
    same_cap = refl;
    same_owned = refl;
    appended = λ e. sym (append-nil (received s));
  }
  append_escaped-Appends (ch ∷ text) s v = rw (sym (sink_escaped-eq ch)) (
      &>-Appends (append realloc (sink_escaped ch) s) (append_escaped realloc text)
        (append-Appends realloc keeps (sink_escaped ch) s v) (append_escaped-Appends text))

  -- `sink_append_json_string` appends the quoted text, the same that `write_json_string` writes.
  pub sink_append_json_string-Appends :
      (text : List ℕ) (s : ByteSink)
      → IsValid s
      → Appends s (quoted text) (sink_append_json_string realloc text s)
  unfolding sink_append_json_string
  sink_append_json_string-Appends text s v =
      let open_quote = append-Appends realloc keeps (b'"' ∷ []) s v in
      let body =
        &>-Appends (append realloc (b'"' ∷ []) s) (append_escaped realloc text) open_quote
          (append_escaped-Appends text) in
      &>-Appends (append realloc (b'"' ∷ []) s &> append_escaped realloc text)
        (append realloc (b'"' ∷ [])) body (append-Appends realloc keeps (b'"' ∷ []))

  -- What the catalogue's answer keeps of the sink, for the requests that it is a part of.
  pub serve_local_model_catalog-Answers :
      (env : Environment) (method url : List ℕ) (s : ByteSink)
      → IsValid s
      → Answers s (catalog_text env.model) (serve_local_model_catalog realloc env method url s)
  unfolding serve_local_model_catalog
  serve_local_model_catalog-Answers env method url s v =
      elim (Bool-cases (asks_catalog env method url)) [
        | inr other ↦ rw other (not_local-Answers s (catalog_text env.model) v)
        | inl asked ↦ elim (Bool-cases (is_model_id_safe env.model)) [
          | inr unsafe ↦ rw (asked, unsafe) (failed-Answers s (catalog_text env.model) v)
          | inl safe ↦
              let first = write_some realloc catalog_prefix s in
              let chain =
                &>-Appends (first &> write_some realloc env.model) (write_some realloc catalog_tail)
                  (&>-Appends first (write_some realloc env.model)
                    (write_some-Appends realloc keeps catalog_prefix s v)
                    (write_some-Appends realloc keeps env.model))
                  (write_some-Appends realloc keeps catalog_tail) in
              rw (asked, safe, sym (catalog_text-eq env.model safe))
                (chain-Answers s ((catalog_prefix ++ env.model) ++ catalog_tail) _ chain)
        ]
      ]

  serve_fixture-Answers :
      (text : List ℕ) (s : ByteSink)
      → IsValid s
      → Answers s (fixture_events text) (serve_fixture realloc text s)
  unfolding serve_fixture
  serve_fixture-Answers text s v = elim (Bool-cases (ltb max_fixture_bytes (length text))) [
    | inl long ↦ rw long (failed-Answers s (fixture_events text) v)
    | inr fits ↦
        let first = append realloc fixture_prefix s in
        let chain =
          &>-Appends (first &> sink_append_json_string realloc text) (append realloc fixture_suffix)
            (&>-Appends first (sink_append_json_string realloc text)
              (append-Appends realloc keeps fixture_prefix s v)
              (sink_append_json_string-Appends text))
            (append-Appends realloc keeps fixture_suffix) in
        rw (fits, sym (append_assoc fixture_prefix (quoted text) fixture_suffix))
          (chain-Answers s ((fixture_prefix ++ quoted text) ++ fixture_suffix) _ chain)
  ]

  -- The same of the fixture's answer, whose text is quoted.
  pub serve_fixture_chat-Answers :
      (env : Environment) (method : List ℕ) (s : ByteSink)
      → IsValid s
      → Answers s
          (fixture_events (text_of env.fixture_text))
          (serve_fixture_chat realloc env method s)
  unfolding serve_fixture_chat
  serve_fixture_chat-Answers env method s v = elim (Option-cases env.fixture_text) [
    | inl e ↦ rw (e, serve_fixture_chat) (not_local-Answers s (fixture_events []) v)
    | inr (text, e) ↦
        rw (e, serve_fixture_chat)
          (elim (Bool-cases (length text == 0 || not (same_text method (codes "POST")))) [
            | inl other ↦ rw other (not_local-Answers s (fixture_events text) v)
            | inr asked ↦ rw asked (serve_fixture-Answers text s v)
          ])
  ]
