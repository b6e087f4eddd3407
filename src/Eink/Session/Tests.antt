-- ===== src/Eink/Session/Tests.antt =====
-- An exchange with fx at concrete lines.
use esp32_fx.Eink.Buffer.{TextBuffer, empty_buffer, buffer_append, grown_capacity, double_until}
use esp32_fx.Eink.Buffer.Laws.{empty_buffer-IsValid}
use esp32_fx.Eink.Json.{
  decode_json_string, decode_rest, decode_escape, write_json_string, write_escaped, escaped,
}
use esp32_fx.Eink.Keys.{
  skip_whitespace, find_quote, matches, at_char, find_key, find_json_key, cursor_value,
  json_string_value, json_integer_value,
}
use esp32_fx.Eink.Session.Exchange.{Exchanged, prompt_request, exchange_prompt-Exchanged}
use esp32_fx.Eink.Session.Finds.{IsReadable, IsAnswer, IsError, read_until_id_total}
use esp32_fx.Eink.Session.Reads.{response_text}
use esp32_fx.Eink.Session.{
  Reading, initialize_request, new_session_request, apply_update, append_text, is_id, line_kind,
  read_until_id, exchange_prompt, send_initialize, send_new_session, send_prompt, session_of,
}
use esp32_fx.Prelude.{
  ℕ, ◌-◌, ◌≡◌, refl, sym, Bool, true, false, ◌&&◌, Option, none, some, List, [], ◌∷◌, ◌++◌, leb,
  if◌then◌else◌, ℤ, pos, codes, c_string, same_text, some_injective, arith, ◌⊎◌, inl,
}

abbrev always : ℕ → Bool
always n = true

-- `strtol` on one digit.
abbrev one_digit : List ℕ → Option ℤ
one_digit [] = none
one_digit (byte ∷ text) = if leb b'0' byte && leb byte b'9' then some (pos (byte - b'0')) else none

abbrev update : List ℕ
update = codes "{\"sessionUpdate\":\"agent_message_chunk\",\"text\":\"hi\"}\n"

abbrev answer : List ℕ
answer = codes "{\"id\":3}\n"

abbrev reading : Reading
reading = record {
  answer = answer;
  rest = [];
  response = some (record { bytes = codes "hi"; capacity = 1024 });
}

update-IsReadable : IsReadable always (λ n. refl) update
unfolding read_until_id apply_update append_text is_id line_kind json_string_value
    json_integer_value find_json_key find_key skip_whitespace find_quote matches at_char
    cursor_value decode_json_string decode_rest decode_escape buffer_append grown_capacity
    double_until c_string same_text
update-IsReadable = record {
  short = omega arith;
  update_decodes = λ e. absurd (cc);
  text_decodes = λ e. absurd (cc);
}

answer-IsReadable : IsReadable always (λ n. refl) answer
unfolding read_until_id apply_update append_text is_id line_kind json_string_value
    json_integer_value find_json_key find_key skip_whitespace find_quote matches at_char
    cursor_value decode_json_string decode_rest decode_escape buffer_append grown_capacity
    double_until c_string same_text
answer-IsReadable = record {
  short = omega arith;
  update_decodes = λ e. absurd (cc);
  text_decodes = λ e. absurd (cc);
}

read_until_id_total_example :
    (IsAnswer always (λ n. refl) one_digit 3 answer
      × (c : TextBuffer) × (c.bytes ≡ [] ++ response_text always (update ∷ answer ∷ []))
      × (read_until_id always one_digit 3 (update ∷ answer ∷ []) (some empty_buffer)
          ≡ some (record { answer = answer; rest = []; response = some c })))
    ⊎ (IsError always (λ n. refl) one_digit 3 answer
        × (read_until_id always one_digit 3 (update ∷ answer ∷ []) (some empty_buffer) ≡ none))
unfolding read_until_id apply_update append_text is_id line_kind json_string_value
    json_integer_value find_json_key find_key skip_whitespace find_quote matches at_char
    cursor_value decode_json_string decode_rest decode_escape buffer_append grown_capacity
    double_until c_string same_text
read_until_id_total_example =
    read_until_id_total always (λ n. refl) one_digit 3 (update ∷ []) [] answer empty_buffer
      empty_buffer-IsValid (inl refl, tt) (inl (refl, refl))
      (update-IsReadable, (answer-IsReadable, tt)) (omega arith)

-- A stream that takes every write.
abbrev put : List ℕ → List ℕ → Option (List ℕ)
put bytes sent = some (sent ++ bytes)

abbrev flush : List ℕ → Option (List ℕ)
flush sent = some sent

abbrev lines : List (List ℕ)
lines = codes "{\"id\":1}\n" ∷ codes "{\"id\":2,\"sessionId\":\"s\"}\n" ∷ update ∷ answer ∷ []

abbrev sent : List ℕ
sent =
    initialize_request false ++ (new_session_request ++ prompt_request (codes "s") (codes "hello"))

exchange_prompt-Exchanged_example :
    Exchanged always one_digit false
      (codes "hello")
      lines
      sent
      (some (record { bytes = codes "hi"; capacity = 1024 }))
unfolding read_until_id apply_update append_text is_id line_kind json_string_value
    json_integer_value find_json_key find_key skip_whitespace find_quote matches at_char
    cursor_value decode_json_string decode_rest decode_escape buffer_append grown_capacity
    double_until c_string same_text exchange_prompt send_initialize send_new_session send_prompt
    session_of write_json_string write_escaped escaped
exchange_prompt-Exchanged_example =
    exchange_prompt-Exchanged put flush (λ sent. sent)
      (λ bytes f g e. sym (some_injective (f ++ bytes) g e)) (λ f g e. sym (some_injective f g e))
      always one_digit false (codes "hello") lines [] sent
      (some (record { bytes = codes "hi"; capacity = 1024 })) refl refl
