-- ===== src/Eink/Session/Exchange.antt =====
-- What a whole exchange sends and receives.
use esp32_fx.Eink.Buffer.Laws.{IsValid, empty_buffer-IsValid}
use esp32_fx.Eink.Buffer.{TextBuffer, empty_buffer}
use esp32_fx.Eink.Json.RoundTrip.{quoted}
use esp32_fx.Eink.Json.Writing.{write_json_string_lem}
use esp32_fx.Eink.Json.{write_json_string}
use esp32_fx.Eink.Keys.{json_string_value}
use esp32_fx.Eink.Session.Reads.{Reads, response_text, read_until_id-Reads}
use esp32_fx.Eink.Session.{
  Reading, initialize_request, new_session_request, prompt_head, prompt_middle, prompt_end,
  session_of, send_initialize, send_new_session, send_prompt, read_until_id, exchange_prompt,
}
use esp32_fx.Prelude.{
  ℕ, ◌≡◌, sym, ap, ◌∙◌, Bool, Option, none, some, List, [], ◌∷◌, ◌++◌, append_assoc, c_string,
  codes, some_injective, bind-eq-some, ℤ,
}

-- The request of `send_prompt`.
abbrev pub prompt_request : List ℕ → List ℕ → List ℕ
prompt_request session_id prompt =
    prompt_head ++ (quoted session_id ++ (prompt_middle ++ (quoted prompt ++ prompt_end)))

-- Two texts written one after the other.
chain : (w x y s t : List ℕ) → x ≡ w ++ s → y ≡ x ++ t → y ≡ w ++ (s ++ t)
chain w x y s t first second = second ∙ ap (λ z. z ++ t) first ∙ append_assoc w s t

module _ {File : Type 0} (put : List ℕ → File → Option File) (flush : File → Option File)
    (contents : File → List ℕ)
    (appends : (bytes : List ℕ) (f g : File)
      → put bytes f ≡ some g
      → contents g ≡ contents f ++ bytes)
    (flushes : (f g : File) → flush f ≡ some g → contents g ≡ contents f) where
  send_initialize_lem :
      (with_tools : Bool) (f g : File)
      → send_initialize put flush with_tools f ≡ some g
      → contents g ≡ contents f ++ initialize_request with_tools
  unfolding send_initialize
  send_initialize_lem with_tools f g e =
      let (h, written, flushed) = bind-eq-some (put (initialize_request with_tools) f) _ e in
      flushes h g flushed ∙ appends (initialize_request with_tools) f h written

  send_new_session_lem :
      (f g : File)
      → send_new_session put flush f ≡ some g
      → contents g ≡ contents f ++ new_session_request
  unfolding send_new_session
  send_new_session_lem f g e =
      let (h, written, flushed) = bind-eq-some (put new_session_request f) _ e in
      flushes h g flushed ∙ appends new_session_request f h written

  -- A prompt that is sent is one line of JSON, with the session and the prompt quoted.
  pub send_prompt_lem :
      (session_id prompt : List ℕ) (f g : File)
      → send_prompt put flush session_id prompt f ≡ some g
      → contents g ≡ contents f ++ prompt_request session_id prompt
  unfolding send_prompt
  send_prompt_lem session_id prompt f g e =
      let (f1, e1, r1) = bind-eq-some (put prompt_head f) _ e in
      let (f2, e2, r2) = bind-eq-some (write_json_string put session_id f1) _ r1 in
      let (f3, e3, r3) = bind-eq-some (put prompt_middle f2) _ r2 in
      let (f4, e4, r4) = bind-eq-some (write_json_string put prompt f3) _ r3 in
      let (f5, e5, r5) = bind-eq-some (put prompt_end f4) _ r4 in
      let c1 : contents f1 ≡ contents f ++ prompt_head = appends prompt_head f f1 e1 in
      let c2 : contents f2 ≡ contents f1 ++ quoted session_id =
        write_json_string_lem put contents appends session_id f1 f2 e2 in
      let c3 : contents f3 ≡ contents f2 ++ prompt_middle = appends prompt_middle f2 f3 e3 in
      let c4 : contents f4 ≡ contents f3 ++ quoted prompt =
        write_json_string_lem put contents appends prompt f3 f4 e4 in
      let c5 : contents f5 ≡ contents f4 ++ prompt_end = appends prompt_end f4 f5 e5 in
      flushes f5 g r5
      ∙ chain (contents f) (contents f1) (contents f5) prompt_head
          (quoted session_id ++ (prompt_middle ++ (quoted prompt ++ prompt_end))) c1
          (chain (contents f1) (contents f2) (contents f5) (quoted session_id)
            (prompt_middle ++ (quoted prompt ++ prompt_end)) c2
            (chain (contents f2) (contents f3) (contents f5) prompt_middle
              (quoted prompt ++ prompt_end) c3
              (chain (contents f3) (contents f4) (contents f5) (quoted prompt) prompt_end c4 c5)))

  -- The three requests, one after the other.
  requests_lem :
      (with_tools : Bool) (session_id prompt : List ℕ) (f f1 f2 f3 : File)
      → contents f ≡ []
      → send_initialize put flush with_tools f ≡ some f1
      → send_new_session put flush f1 ≡ some f2
      → send_prompt put flush session_id prompt f2 ≡ some f3
      → contents f3
        ≡ initialize_request with_tools ++ (new_session_request ++ prompt_request session_id prompt)
  requests_lem with_tools session_id prompt f f1 f2 f3 fresh e1 e2 e3 =
      let request = prompt_request session_id prompt in
      chain (contents f) (contents f1) (contents f3) (initialize_request with_tools)
        (new_session_request ++ request) (send_initialize_lem with_tools f f1 e1)
        (chain (contents f1) (contents f2) (contents f3) new_session_request request
          (send_new_session_lem f1 f2 e2) (send_prompt_lem session_id prompt f2 f3 e3))
      ∙ ap (λ z. z ++ (initialize_request with_tools ++ (new_session_request ++ request))) fresh

-- An exchange that succeeded: the answers to the three requests in the lines from fx, in order, what was
-- sent, and the response, which is the text of the updates before the answer to the prompt.
pub record Exchanged (has_memory : ℕ → Bool) (strtol : List ℕ → Option ℤ) (with_tools : Bool)
    (prompt : List ℕ) (lines : List (List ℕ)) (sent : List ℕ) (response : Option TextBuffer)
    : Type 0 where
  pub started : Reading
  pub opened : Reading
  pub last : Reading
  pub starts : Reads has_memory strtol 1 lines none started
  pub opens : Reads has_memory strtol 2 started.rest none opened
  pub answers : Reads has_memory strtol 3 opened.rest (some empty_buffer) last
  pub session_id : List ℕ
  pub names :
      session_of (json_string_value has_memory (c_string opened.answer) (codes "sessionId"))
      ≡ some session_id
  pub requests :
      sent
      ≡ initialize_request with_tools ++ (new_session_request ++ prompt_request session_id prompt)
  pub text : TextBuffer
  pub text_valid : IsValid text
  pub whole : response ≡ some text
  pub text_bytes : text.bytes ≡ response_text has_memory (answers.before ++ (last.answer ∷ []))

module _ {File : Type 0} (put : List ℕ → File → Option File) (flush : File → Option File)
    (contents : File → List ℕ)
    (appends : (bytes : List ℕ) (f g : File)
      → put bytes f ≡ some g
      → contents g ≡ contents f ++ bytes)
    (flushes : (f g : File) → flush f ≡ some g → contents g ≡ contents f) where
  -- The steps of an exchange, put together.
  exchanged :
      (has_memory : ℕ → Bool) (strtol : List ℕ → Option ℤ) (with_tools : Bool)
      (prompt session_id : List ℕ) (lines : List (List ℕ)) (r1 r2 r3 : Reading)
      (response : Option TextBuffer) (f f1 f2 f3 g : File)
      → contents f ≡ []
      → send_initialize put flush with_tools f ≡ some f1
      → read_until_id has_memory strtol 1 lines none ≡ some r1
      → send_new_session put flush f1 ≡ some f2
      → read_until_id has_memory strtol 2 r1.rest none ≡ some r2
      → session_of (json_string_value has_memory (c_string r2.answer) (codes "sessionId"))
        ≡ some session_id
      → send_prompt put flush session_id prompt f2 ≡ some f3
      → read_until_id has_memory strtol 3 r2.rest (some empty_buffer) ≡ some r3
      → ◌≡◌ {A = Option TextBuffer × File} (r3.response, f3) (response, g)
      → Exchanged has_memory strtol with_tools prompt lines (contents g) response
  exchanged has_memory strtol with_tools prompt session_id lines r1 r2 r3 response f f1 f2 f3 g
        fresh e1 e2 e3 e4 e5 e6 e7 pair =
      let answers = read_until_id-Reads has_memory strtol 3 r2.rest (some empty_buffer) r3 e7 in
      let (text, whole, law) = answers.extended in
      let (bytes, valid) = law empty_buffer-IsValid in
      record {
        started = r1;
        opened = r2;
        last = r3;
        starts = read_until_id-Reads has_memory strtol 1 lines none r1 e2;
        opens = read_until_id-Reads has_memory strtol 2 r1.rest none r2 e4;
        answers = answers;
        session_id = session_id;
        names = e5;
        requests =
            ap (λ (p : Option TextBuffer × File). contents p.1) (sym pair)
            ∙ requests_lem put flush contents appends flushes with_tools session_id prompt f f1 f2
                f3 fresh e1 e3 e6;
        text = text;
        text_valid = valid;
        whole = ap (λ (p : Option TextBuffer × File). p.0) (sym pair) ∙ whole;
        text_bytes = bytes;
      }

  -- If the exchange with fx succeeds over a stream where a write that succeeds adds its bytes, it has sent
  -- the three requests in order, the last with the session's identifier from fx's answer to the second and
  -- with the prompt, both quoted; and the response is exactly the texts of the updates among the lines
  -- between the answers to the second and the third request.
  pub exchange_prompt-Exchanged :
      (has_memory : ℕ → Bool) (strtol : List ℕ → Option ℤ) (with_tools : Bool) (prompt : List ℕ)
      (lines : List (List ℕ)) (f g : File) (response : Option TextBuffer)
      → contents f ≡ []
      → exchange_prompt put flush has_memory strtol with_tools prompt lines f ≡ some (response, g)
      → Exchanged has_memory strtol with_tools prompt lines (contents g) response
  unfolding exchange_prompt
  exchange_prompt-Exchanged has_memory strtol with_tools prompt lines f g response fresh e =
      let (f1, e1, k1) = bind-eq-some (send_initialize put flush with_tools f) _ e in
      let (r1, e2, k2) = bind-eq-some (read_until_id has_memory strtol 1 lines none) _ k1 in
      let (f2, e3, k3) = bind-eq-some (send_new_session put flush f1) _ k2 in
      let (r2, e4, k4) = bind-eq-some (read_until_id has_memory strtol 2 r1.rest none) _ k3 in
      let (session_id, e5, k5) =
        bind-eq-some
          (session_of (json_string_value has_memory (c_string r2.answer) (codes "sessionId"))) _
          k4 in
      let (f3, e6, k6) = bind-eq-some (send_prompt put flush session_id prompt f2) _ k5 in
      let (r3, e7, k7) =
        bind-eq-some (read_until_id has_memory strtol 3 r2.rest (some empty_buffer)) _ k6 in
      exchanged has_memory strtol with_tools prompt session_id lines r1 r2 r3 response f f1 f2 f3 g
        fresh e1 e2 e3 e4 e5 e6 e7 (some_injective (r3.response, f3) (response, g) k7)
