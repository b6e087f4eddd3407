-- ===== src/Native/Request/Keeps.antt =====
-- What a request leaves in its sink: the invariant, and the bytes of a response.
use esp32_fx.Native.Request.Carries.{request_options-Carries}
use esp32_fx.Native.Request.Promises.{
  Calls, no_call, one_more, Delivers, nothing, one_chunk, CurlLaws, Responds, Sets, IsRequest,
  Served-cases,
}
use esp32_fx.Native.Local.Answers.{serve_local_model_catalog-Answers, serve_fixture_chat-Answers}
use esp32_fx.Native.Local.Appending.{write_body-whole}
use esp32_fx.Native.Local.{Environment, serve_local_model_catalog, serve_fixture_chat}
use esp32_fx.Native.Request.{
  Curl, Request, CurlOption, max_method_bytes, max_url_bytes, status_of, write_callback, transfer,
  exchange, request_fixture, request_local, perform_request, is_absolute, trust_path, set_options,
  request_options,
}
use esp32_fx.Native.Headers.{parse_headers}
use esp32_fx.Native.Url.{copy_string, rewrite_gateway_url}
use esp32_fx.Native.Sink.Write.{IsValid, write_body_keeps}
use esp32_fx.Native.Sink.{ByteSink, received, KeepsBytes}
use esp32_fx.Native.Streams.{Requester}
use esp32_fx.Prelude.{
  ℕ, ◌<◌, ◌≡◌, refl, sym, ap, ◌∙◌, inl, inr, Bool, ◌&&◌, Option, none, some, List, [], ◌++◌, length,
  append_assoc, append-nil, arith, Bool-cases, Option-cases, ℤ, pos, negsuc,
}

module _ (realloc : List ℕ → ℕ → Option (List ℕ)) (keeps : KeepsBytes realloc) (curl : Curl)
    (has_memory : ℕ → Bool) where
  Calls-IsValid :
      {s t : ByteSink}
      → IsValid s
      → Calls (write_callback curl has_memory realloc) s t
      → IsValid t × (t.cap ≡ s.cap) × (t.owned ≡ s.owned)
  unfolding write_callback
  Calls-IsValid v no_call = (v, refl, refl)
  Calls-IsValid v (one_more {t} calls bytes) =
      let (vt, c, o) = Calls-IsValid v calls in
      let k = write_body_keeps realloc keeps t bytes 1 (length bytes) vt (omega arith) in
      (k.0, k.2 ∙ c, k.1 ∙ o)

  Delivers-received :
      {s t : ByteSink} {body : List ℕ}
      → IsValid s
      → Delivers (write_callback curl has_memory realloc) s body t
      → IsValid t × (received t ≡ received s ++ body)
  unfolding write_callback
  Delivers-received {s} v nothing = (v, sym (append-nil (received s)))
  Delivers-received {s} v (one_chunk {body} {t} before bytes all) =
      let (vt, got) = Delivers-received v before in
      let k = write_body_keeps realloc keeps t bytes 1 (length bytes) vt (omega arith) in
      (
        k.0,
        elim (write_body-whole realloc keeps bytes t vt) [
          | inl (_, more) ↦ more ∙ ap (λ r. r ++ bytes) got ∙ append_assoc (received s) body bytes
          | inr (zero_taken, same) ↦
              let none_there : bytes ≡ [] = ground (arith, zero_taken, all) in
              same
              ∙ got
              ∙ ap (λ r. received s ++ r)
                  (sym (append-nil body) ∙ ap (λ b. body ++ b) (sym none_there))
        ],
      )

  status_of_word : (code : Option ℤ) (n : ℕ) → status_of code ≡ some n → n < 65536
  unfolding status_of
  status_of_word none n e = absurd (cc)
  status_of_word (some (pos m)) n e = ground arith
  status_of_word (some (negsuc m)) n e = absurd (cc)

  module _ (laws : CurlLaws curl) (env : Environment) where
    abbrev Answered : (List CurlOption → Type 0) → ByteSink → Option ℕ × ByteSink → Type 0
    Answered Ours s out = Responds curl (write_callback curl has_memory realloc) env Ours s out

    failed_Responds :
        (Ours : List CurlOption → Type 0) (s t : ByteSink)
        → IsValid t
        → t.cap ≡ s.cap
        → t.owned ≡ s.owned
        → Answered Ours s (none, t)
    failed_Responds Ours s t v c o = record {
      valid = v;
      same_cap = c;
      same_owned = o;
      status_word = λ n e. absurd (cc);
      response = λ n e. absurd (cc);
    }

    transfer-Responds :
        (Ours : List CurlOption → Type 0) (handle : List CurlOption) (s : ByteSink)
        → Ours handle
        → IsValid s
        → Answered Ours s (transfer curl has_memory realloc handle s)
    unfolding transfer
    transfer-Responds Ours handle s ours v =
        let write = write_callback curl has_memory realloc in
        let (vt, c, o) = Calls-IsValid v (laws.only_calls handle write s) in
        elim (Bool-cases (curl.easy_perform handle write s).0) [
          | inr bad ↦ rw bad (failed_Responds Ours s (curl.easy_perform handle write s).1 vt c o)
          | inl ok ↦
              let got = (Delivers-received v (laws.delivers handle write s ok)).1 in
              rw ok (record {
                valid = vt;
                same_cap = c;
                same_owned = o;
                status_word = λ n e. status_of_word (curl.response_code handle s) n e;
                response = λ n e. inr (inr (handle, ours, (ok, e), got));
              })
        ]

    exchange-Responds :
        (request : Request) (method location : List ℕ) (Ours : List CurlOption → Type 0)
        → ((handle : List CurlOption)
            → Sets curl has_memory request method location handle
            → Ours handle)
        → (s : ByteSink) → IsValid s
        → Answered Ours s (exchange curl has_memory realloc env request method location s)
    unfolding exchange
    exchange-Responds request method location Ours ours s v =
        elim (Bool-cases (curl.easy_init && is_absolute (trust_path env))) [
          | inr no_handle ↦ rw (no_handle, exchange) (failed_Responds Ours s s v refl refl)
          | inl handle ↦
              elim (Option-cases (parse_headers has_memory curl.slist_append request.headers [])) [
                | inl bad ↦ rw (handle, exchange, bad) (failed_Responds Ours s s v refl refl)
                | inr (headers, parsed) ↦
                    let options =
                      request_options (trust_path env) method location headers request.body in
                    elim (Option-cases (set_options curl options [])) [
                      | inl bad ↦
                          rw (handle, exchange, parsed, bad) (failed_Responds Ours s s v refl refl)
                      | inr (set, done) ↦
                          rw (handle, exchange, parsed, done)
                            (transfer-Responds Ours set s
                              (ours set (
                                headers,
                                parsed,
                                request_options-Carries curl (trust_path env) method location
                                    headers request.body set done,
                              ))
                              v)
                    ]
              ]
        ]

    request_fixture-Responds :
        (request : Request) (method location : List ℕ) (Ours : List CurlOption → Type 0)
        → ((handle : List CurlOption)
            → Sets curl has_memory request method location handle
            → Ours handle)
        → (s : ByteSink) → IsValid s
        → Answered Ours s (request_fixture curl has_memory realloc env request method location s)
    unfolding request_fixture
    request_fixture-Responds request method location Ours ours s v =
        let a = serve_fixture_chat-Answers realloc keeps env method s v in
        let t = (serve_fixture_chat realloc env method s).1 in
        elim (Served-cases (serve_fixture_chat realloc env method s).0) [
          | inl e ↦
              rw (e, request_fixture, a.passed e)
                (exchange-Responds request method location Ours ours s v)
          | inr (inl e) ↦
              rw (e, request_fixture) (failed_Responds Ours s t a.valid a.same_cap a.same_owned)
          | inr (inr (status, e)) ↦
              rw (e, request_fixture)
                (record {
                  valid = a.valid;
                  same_cap = a.same_cap;
                  same_owned = a.same_owned;
                  status_word = λ n f. ground (arith, f, a.whole status e);
                  response = λ n f. inr (inl (a.whole status e).1);
                })
        ]

    request_local-Responds :
        (request : Request) (method location : List ℕ) (Ours : List CurlOption → Type 0)
        → ((handle : List CurlOption)
            → Sets curl has_memory request method location handle
            → Ours handle)
        → (s : ByteSink) → IsValid s
        → Answered Ours s (request_local curl has_memory realloc env request method location s)
    unfolding request_local
    request_local-Responds request method location Ours ours s v =
        let a = serve_local_model_catalog-Answers realloc keeps env method location s v in
        let t = (serve_local_model_catalog realloc env method location s).1 in
        elim (Served-cases (serve_local_model_catalog realloc env method location s).0) [
          | inl e ↦
              rw (e, request_local, a.passed e)
                (request_fixture-Responds request method location Ours ours s v)
          | inr (inl e) ↦
              rw (e, request_local) (failed_Responds Ours s t a.valid a.same_cap a.same_owned)
          | inr (inr (status, e)) ↦
              rw (e, request_local)
                (record {
                  valid = a.valid;
                  same_cap = a.same_cap;
                  same_owned = a.same_owned;
                  status_word = λ n f. ground (arith, f, a.whole status e);
                  response = λ n f. inl (a.whole status e).1;
                })
        ]

    -- If libcurl and `realloc` keep their promises, `perform_request` keeps a valid sink valid and its
    -- status fits 16 bits; and if it succeeds, the response is longer by the catalogue of the model, by
    -- the fixture's events, or by the body of the server's response to the guest's request.
    pub perform_request-Responds :
        (request : Request) (s : ByteSink)
        → IsValid s
        → Answered
            (IsRequest curl has_memory env request)
            s
            (perform_request curl has_memory realloc env request s)
    unfolding perform_request
    perform_request-Responds request s v =
        elim (Option-cases (copy_string has_memory request.method max_method_bytes)) [
          | inl e ↦
              rw (e, perform_request)
                (failed_Responds (IsRequest curl has_memory env request) s s v refl refl)
          | inr (method, e) ↦
              elim (Option-cases (copy_string has_memory request.url max_url_bytes)) [
                | inl f ↦
                    rw (e, perform_request, f)
                      (failed_Responds (IsRequest curl has_memory env request) s s v refl refl)
                | inr (location, f) ↦
                    rw (e, perform_request, f)
                      (request_local-Responds request method
                        (rewrite_gateway_url has_memory env.gateway_base_url location)
                        (IsRequest curl has_memory env request)
                        (λ handle sets. (method, location, e, f, sets)) s v)
              ]
        ]

    -- The HTTP exchange that the stream table relies on.
    abbrev pub requester : Request → Requester
    requester request = record {
      perform = perform_request curl has_memory realloc env request;
      keeps = λ s v. (perform_request-Responds request s v).valid;
      keeps_owned = λ s v. (perform_request-Responds request s v).same_owned;
      keeps_cap = λ s v. (perform_request-Responds request s v).same_cap;
      status_word = λ s status v e. (perform_request-Responds request s v).status_word status e;
    }
