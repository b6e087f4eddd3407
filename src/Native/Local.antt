-- ===== src/Native/Local.antt =====
-- runtime/fx_wamr_native.c: the answers that need no network: `is_model_id_safe`,
-- `serve_local_model_catalog`, `sink_append_json_string` and `serve_fixture_chat`. The environment is a
-- record of what `getenv` finds; a C string is the list of its bytes before the NUL.
pub mod Appending
pub mod Answers
pub mod Asks
pub mod Catalog
use esp32_fx.Native.Sink.{ByteSink, write_body, sink_append}
use esp32_fx.Prelude.{
  ℕ, zero, suc, ◌+◌, ◌-◌, ◌*◌, ◌/◌, ◌%◌, Bool, true, false, not, ◌&&◌, ◌||◌, Option, none, some,
  List, [], ◌∷◌, ◌++◌, length, drop, ltb, leb, ◌==◌, if◌then◌else◌, same_text, codes,
}

-- FX_WAMR_MAX_FIXTURE_BYTES
abbrev pub max_fixture_bytes : ℕ
max_fixture_bytes = 8192

-- The variables that the bridge reads. The launcher does not start without FX_MODEL.
pub record Environment : Type 0 where
  pub gateway_base_url : Option (List ℕ)
  pub local_model_catalog : Option (List ℕ)
  pub model : List ℕ
  pub fixture_text : Option (List ℕ)
  pub ca_bundle : Option (List ℕ)

-- The results 0, -1, and 1 with the status.
pub data Served : Type 0 where
  not_local : Served
  failed : Served
  served : ℕ → Served

abbrev pub is_model_char : ℕ → Bool
is_model_char ch =
    (leb b'a' ch && leb ch b'z')
    || (leb b'A' ch && leb ch b'Z')
    || (leb b'0' ch && leb ch b'9')
    || ch == b'-'
    || ch == b'_'
    || ch == b'.'
    || ch == b'/'
    || ch == b':'

-- The loop, behind `length` characters.
pub model_chars_safe : ℕ → List ℕ → Bool
model_chars_safe length [] = ltb 0 length
model_chars_safe length (ch ∷ model) =
    let rest = model_chars_safe (length + 1) model in
    if not (is_model_char ch) then false else if ltb 256 (length + 1) then false else rest

pub is_model_id_safe : List ℕ → Bool
is_model_id_safe model = model_chars_safe 0 model

abbrev pub catalog_suffix : List ℕ
catalog_suffix = codes "/coding-agent/v1/models"

abbrev pub catalog_prefix : List ℕ
catalog_prefix = codes "{\"object\":\"list\",\"data\":[{\"id\":\""

abbrev pub catalog_tail : List ℕ
catalog_tail = codes "\",\"type\":\"language\",\"tags\":[]}]}"

-- Whether a request asks for the catalogue: the tests of environment, method and URL.
pub asks_catalog : Environment → List ℕ → List ℕ → Bool
asks_catalog env method url =
    let enabled = elim env.local_model_catalog as (λ _. Bool) [
      | none ↦ false
      | some text ↦ same_text text (codes "1")
    ] in
    enabled
    && (same_text method (codes "GET") && not (ltb (length url) (length catalog_suffix)))
    && same_text (drop (length url - length catalog_suffix) url) catalog_suffix

abbrev pub fixture_prefix : List ℕ
fixture_prefix = codes "data: {\"type\":\"text-delta\",\"delta\":"

abbrev pub fixture_suffix : List ℕ
fixture_suffix =
    codes
      "}\n\ndata: {\"type\":\"finish\",\"finishReason\":{\"unified\":\"stop\",\"raw\":\"stop\"},\"usage\":{\"inputTokens\":{\"total\":1},\"outputTokens\":{\"total\":1}}}\n\ndata: [DONE]\n\n"

abbrev pub low_hex : ℕ → ℕ
low_hex value = if ltb value 10 then b'0' + value else b'a' + value - 10

-- The bytes that the `switch` of `sink_append_json_string` puts into `escaped`.
pub sink_escaped : ℕ → List ℕ
sink_escaped ch =
    if ch == b'"'
    then b'\\' ∷ b'"' ∷ []
    else if ch == b'\\'
    then b'\\' ∷ b'\\' ∷ []
    else if ch == 8
    then b'\\' ∷ b'b' ∷ []
    else if ch == 12
    then b'\\' ∷ b'f' ∷ []
    else if ch == 10
    then b'\\' ∷ b'n' ∷ []
    else if ch == 13
    then b'\\' ∷ b'r' ∷ []
    else if ch == 9
    then b'\\' ∷ b't' ∷ []
    else if ltb ch 0x20
    then b'\\' ∷ b'u' ∷ b'0' ∷ b'0' ∷ low_hex (ch / 16) ∷ low_hex (ch % 16) ∷ []
    else ch ∷ []

-- The next write, if the last one succeeded.
infixl 4 ◌&>◌
pub ◌&>◌ : Bool × ByteSink → (ByteSink → Bool × ByteSink) → Bool × ByteSink
(true, sink) &> next = next sink
(false, sink) &> next = (false, sink)

module _ (realloc : List ℕ → ℕ → Option (List ℕ)) where
  -- `write_body(bytes, 1, length, sink) != 0`
  pub write_some : List ℕ → ByteSink → Bool × ByteSink
  write_some bytes sink =
      let (n, sink') = write_body realloc bytes 1 (length bytes) sink in (not (n == 0), sink')

  pub serve_local_model_catalog : Environment → List ℕ → List ℕ → ByteSink → Served × ByteSink
  serve_local_model_catalog env method url sink =
      let (ok, sink') =
        write_some catalog_prefix sink &> write_some env.model &> write_some catalog_tail in
      if not (asks_catalog env method url)
      then (not_local, sink)
      else if not (is_model_id_safe env.model)
      then (failed, sink)
      else if ok
      then (served 200, sink')
      else (failed, sink')

  -- `true` is the result 0, here and below.
  pub append : List ℕ → ByteSink → Bool × ByteSink
  append bytes sink = sink_append realloc sink bytes

  pub append_escaped : List ℕ → ByteSink → Bool × ByteSink
  append_escaped [] sink = (true, sink)
  append_escaped (ch ∷ text) sink = append (sink_escaped ch) sink &> append_escaped text

  pub sink_append_json_string : List ℕ → ByteSink → Bool × ByteSink
  sink_append_json_string text sink =
      append (b'"' ∷ []) sink &> append_escaped text &> append (b'"' ∷ [])

  -- The answer with a fixture that is there.
  pub serve_fixture : List ℕ → ByteSink → Served × ByteSink
  serve_fixture fixture sink =
      let (ok, sink') =
        append fixture_prefix sink &> sink_append_json_string fixture &> append fixture_suffix in
      if ltb max_fixture_bytes (length fixture)
      then (failed, sink)
      else if ok
      then (served 200, sink')
      else (failed, sink')

  pub serve_fixture_chat : Environment → List ℕ → ByteSink → Served × ByteSink
  serve_fixture_chat env method sink = elim env.fixture_text [
    | none ↦ (not_local, sink)
    | some fixture ↦
        if length fixture == 0 || not (same_text method (codes "POST"))
        then (not_local, sink)
        else serve_fixture fixture sink
  ]
