-- ===== src/Eink/Session.antt =====
-- runtime/fx_eink.c: `send_initialize`, `send_new_session`, `send_prompt`, `read_until_id`, and the exchange
-- with fx that `main` makes of them. The stream to fx is a parameter, a function that adds bytes or fails;
-- the stream from fx is the list of the lines that fx writes in a run, as `getline` gives them. `strtol`
-- and the sizes that `realloc` finds memory for are parameters.
pub mod Reads
pub mod Finds
pub mod Exchange
mod Tests
use esp32_fx.Eink.Buffer.{TextBuffer, empty_buffer, buffer_append}
use esp32_fx.Eink.Json.{write_json_string}
use esp32_fx.Eink.Keys.{
  StringValue, absent, malformed, found, IntegerValue, missing, invalid, number, matches,
  find_json_key, json_string_value, json_integer_value,
}
use esp32_fx.Prelude.{
  ℕ, zero, suc, ◌*◌, Bool, true, false, ◌||◌, not, Option, none, some, List, [], ◌∷◌, ◌++◌, length,
  ltb, ◌==◌, if◌then◌else◌, c_string, codes, ◌>>=◌, ℤ, pos, negsuc,
}

-- MAX_PROTOCOL_LINE_BYTES
abbrev pub max_protocol_line_bytes : ℕ
max_protocol_line_bytes = 128 * 1024

abbrev pub chunk_kind : List ℕ
chunk_kind = codes "agent_message_chunk"

-- `id == wanted_id`; the ids wanted are not negative.
pub is_id : ℤ → ℕ → Bool
is_id (pos n) wanted = n == wanted
is_id (negsuc n) wanted = false

-- The line is not the answer, or it is, or it ends the reading.
pub data LineKind : Type 0 where
  other_line : LineKind
  answer_line : LineKind
  bad_line : LineKind

-- What a successful reading leaves: the answer, the lines behind it, and the response.
pub record Reading : Type 0 where
  pub answer : List ℕ
  pub rest : List (List ℕ)
  pub response : Option TextBuffer

module _ (has_memory : ℕ → Bool) where
  -- The text of an update, into the response; `none` is the result -1, here and below.
  pub append_text : StringValue → TextBuffer → Option TextBuffer
  append_text absent response = some response
  append_text malformed response = none
  append_text (found text) response = buffer_append has_memory text.bytes response

  -- What a line adds to the response, by the value of its `sessionUpdate`. No response is wanted where
  -- `response` is NULL.
  pub apply_update : StringValue → List ℕ → Option TextBuffer → Option (Option TextBuffer)
  apply_update malformed line response = none
  apply_update absent line response = some response
  apply_update (found update) line none = some none
  apply_update (found update) line (some response) =
      if matches update chunk_kind
      then (do
        longer ← append_text (json_string_value has_memory line (codes "text")) response
        some (some longer))
      else some (some response)

  -- What a line is for the reading, by its `id`.
  pub line_kind : ℕ → List ℕ → IntegerValue → LineKind
  line_kind wanted line missing = other_line
  line_kind wanted line invalid = bad_line
  line_kind wanted line (number id) =
      if is_id id wanted
      then (elim (find_json_key has_memory line (codes "error")) as (λ _. LineKind) [
        | none ↦ answer_line
        | some value ↦ bad_line
      ])
      else other_line

  module _ (strtol : List ℕ → Option ℤ) where
    -- The loop over the lines from fx.
    pub read_until_id : ℕ → List (List ℕ) → Option TextBuffer → Option Reading
    read_until_id wanted [] response = none
    read_until_id wanted (raw ∷ lines) response =
        let line = c_string raw in
        let update =
          apply_update (json_string_value has_memory line (codes "sessionUpdate")) line response in
        let kind = line_kind wanted line (json_integer_value has_memory strtol line (codes "id")) in
        elim (if ltb max_protocol_line_bytes (length raw) then none else update) [
          | none ↦ none
          | some response' ↦ elim kind [
            | bad_line ↦ none
            | answer_line ↦ some (record { answer = raw; rest = lines; response = response' })
            | other_line ↦ read_until_id wanted lines response'
          ]
        ]

-- The request of `send_initialize`, with the tools of the example if FX_EXAMPLE_JAIL is set and not empty.
abbrev pub initialize_request : Bool → List ℕ
initialize_request true =
    codes "{\"jsonrpc\":\"2.0\",\"id\":1,\"method\":\"initialize\",\"params\":{\"protoc"
    ++ codes "olVersion\":1,\"clientCapabilities\":{\"libfx\":{\"instructions\":\"Repair t"
    ++ codes "his tiny shell project using the tools. Read SPEC.md first. Only battery.sh "
    ++ codes "is writable. Always run tests before and after editing.\",\"tools\":[{\"name"
    ++ codes "\":\"read_project\",\"description\":\"Read battery.sh, SPEC.md or test.sh in"
    ++ codes " the project.\",\"inputSchema\":{\"type\":\"object\",\"properties\":{\"path\""
    ++ codes ":{\"type\":\"string\"}},\"required\":[\"path\"],\"additionalProperties\":fal"
    ++ codes "se}},{\"name\":\"replace_battery\",\"description\":\"Replace battery.sh with"
    ++ codes " ASCII POSIX shell source, maximum 4096 bytes.\",\"inputSchema\":{\"type\":\""
    ++ codes "object\",\"properties\":{\"path\":{\"type\":\"string\"},\"content\":{\"type\""
    ++ codes ":\"string\"}},\"required\":[\"path\",\"content\"],\"additionalProperties\":f"
    ++ codes "alse}},{\"name\":\"run_tests\",\"description\":\"Run the fixed project tests"
    ++ codes ". Returns output and exit_code. No arguments.\",\"inputSchema\":{\"type\":\""
    ++ codes "object\",\"properties\":{},\"additionalProperties\":false}}]}}}}\n"
initialize_request false =
    codes "{\"jsonrpc\":\"2.0\",\"id\":1,\"method\":\"initialize\",\"params\":{\"protoc"
    ++ codes "olVersion\":1,\"clientCapabilities\":{}}}\n"

abbrev pub new_session_request : List ℕ
new_session_request = codes "{\"jsonrpc\":\"2.0\",\"id\":2,\"method\":\"libfx/new\"}\n"

abbrev pub prompt_head : List ℕ
prompt_head =
    codes "{\"jsonrpc\":\"2.0\",\"id\":3,\"method\":\"session/prompt\","
    ++ codes "\"params\":{\"sessionId\":"

abbrev pub prompt_middle : List ℕ
prompt_middle = codes ",\"prompt\":[{\"type\":\"text\",\"text\":"

abbrev pub prompt_end : List ℕ
prompt_end = codes "}]}}\n"

-- The session's identifier, if the answer has one that is not empty.
pub session_of : StringValue → Option (List ℕ)
session_of absent = none
session_of malformed = none
session_of (found session) = if session.capacity == 0 then none else some (c_string session.bytes)

-- `put` is `fputs`, `fputc` or `fprintf` of the given bytes, `none` its EOF; `flush` is `fflush`.
module _ {File : Type 0} (put : List ℕ → File → Option File) (flush : File → Option File) where
  pub send_initialize : Bool → File → Option File
  send_initialize with_tools input = do
    written ← put (initialize_request with_tools) input
    flush written

  pub send_new_session : File → Option File
  send_new_session input = do written ← put new_session_request input; flush written

  pub send_prompt : List ℕ → List ℕ → File → Option File
  send_prompt session_id prompt input = do
    f1 ← put prompt_head input
    f2 ← write_json_string put session_id f1
    f3 ← put prompt_middle f2
    f4 ← write_json_string put prompt f3
    f5 ← put prompt_end f4
    flush f5

  -- The exchange: the response, and what was sent. `lines` are those that fx writes.
  pub exchange_prompt :
      (ℕ → Bool)
      → (List ℕ → Option ℤ)
      → Bool
      → List ℕ
      → List (List ℕ)
      → File
      → Option (Option TextBuffer × File)
  exchange_prompt has_memory strtol with_tools prompt lines input = do
    f1 ← send_initialize with_tools input
    r1 ← read_until_id has_memory strtol 1 lines none
    f2 ← send_new_session f1
    r2 ← read_until_id has_memory strtol 2 r1.rest none
    session_id ← session_of (json_string_value has_memory (c_string r2.answer) (codes "sessionId"))
    f3 ← send_prompt session_id prompt f2
    r3 ← read_until_id has_memory strtol 3 r2.rest (some empty_buffer)
    some (r3.response, f3)
