-- ===== src/Native/Request/Tests.antt =====
-- Runs of the HTTP part of runtime/fx_wamr_native.c's model at concrete inputs, and the theorems about it
-- there.
use esp32_fx.Native.Headers.RoundTrip.{headers_text, IsSafe, parse_headers-text}
use esp32_fx.Native.Headers.Safe.{AddsHeaders, parse_headers-AddsHeaders}
use esp32_fx.Native.Headers.Fuel.{parse_objects_fuel}
use esp32_fx.Native.Headers.{HeaderFields, parse_headers, parse_members, parse_objects}
use esp32_fx.Eink.Json.{escaped}
use esp32_fx.Native.Local.Catalog.{Catalogued, serve_local_model_catalog-Catalogued}
use esp32_fx.Native.Local.{Environment, serve_local_model_catalog}
use esp32_fx.Native.Request.Secure.{IsSecure, with_transfers, peer_check, perform_request_secure}
use esp32_fx.Native.Request.{Curl, CurlOption, Request, perform_request}
use esp32_fx.Native.Sink.Write.{IsValid}
use esp32_fx.Native.Sink.{ByteSink, KeepsBytes}
use esp32_fx.Prelude.{
  ℕ, ◌-◌, ◌≡◌, refl, sym, ◌∙◌, inl, Bool, true, false, Option, some, none, List, [], ◌∷◌, ◌++◌,
  length, take, replicate, length-append, length-take, length-replicate, take-append, take-take,
  pos, arith, codes, has_char, ◌==◌,
}

-- A `realloc` that always finds the memory, and gives zeros behind what it keeps.
abbrev grow_block : List ℕ → ℕ → Option (List ℕ)
grow_block old size = some (take size old ++ replicate (size - length old) 0)

grow_block-KeepsBytes : KeepsBytes grow_block
grow_block-KeepsBytes old size new e =
    let n : new ≡ take size old ++ replicate (size - length old) 0 = sym (cc (e)) in
    rw n (
      omega (
        arith,
        length-append (take size old) (replicate (size - length old) 0),
        length-take size old,
        length-replicate {A = ℕ} (size - length old) 0,
      ),
      λ k h1 h2.
          take-append k (take size old) _ (omega (arith, length-take size old))
          ∙ take-take k size k old (omega arith),
    )

abbrev always : ℕ → Bool
always n = true

abbrev append_line : List (List ℕ) → List ℕ → Option (List (List ℕ))
append_line headers line = some (headers ++ (line ∷ []))

-- A server that answers `ok` with status 200.
abbrev ok_server : Curl
ok_server = record {
  easy_init = true;
  easy_setopt = λ option handle. true;
  slist_append = append_line;
  easy_perform = λ handle write s. let (taken, t) = write (codes "ok") s in (taken == 2, t);
  response_code = λ handle s. some (pos 200);
  body = λ handle. codes "ok";
}

abbrev env : Environment
env = record {
  gateway_base_url = some (codes "http://127.0.0.1:8080/");
  local_model_catalog = some (codes "1");
  model = codes "m1";
  fixture_text = none;
  ca_bundle = none;
}

abbrev get : Request
get = record {
  method = codes "GET";
  url = codes "https://ai-gateway.vercel.sh/v1";
  headers = codes "[{\"name\":\"a\",\"value\":\"b\"}]";
  body = [];
}

abbrev eight : List ℕ
eight = 0 ∷ 0 ∷ 0 ∷ 0 ∷ 0 ∷ 0 ∷ 0 ∷ 0 ∷ []

abbrev sink : ByteSink
sink = record { bytes = eight; len = 0; cap = 8; owned = false; overflow = false }

sink-IsValid : IsValid sink
sink-IsValid = record {
  within = omega arith;
  cap_word = omega arith;
  owned_cap = λ e. absurd (cc);
  fits = inl (omega arith);
}

abbrev headers : List (List ℕ × List ℕ)
headers = (codes "a", codes "b") ∷ (codes "c", codes "\"d\"") ∷ []

a_header : IsSafe (codes "a", codes "b")
unfolding has_char
a_header = record {
  nonempty = omega arith;
  name_visible = ground arith;
  no_colon = refl;
  value_visible = ground arith;
  fits = omega arith;
}

c_header : IsSafe (codes "c", codes "\"d\"")
unfolding has_char
c_header = record {
  nonempty = omega arith;
  name_visible = ground arith;
  no_colon = refl;
  value_visible = ground arith;
  fits = omega arith;
}

parse_headers-text_example :
    parse_headers always append_line (headers_text headers) []
    ≡ some (codes "a: b" ∷ codes "c: \"d\"" ∷ [])
unfolding escaped
parse_headers-text_example =
    parse_headers-text always (λ n. refl) append_line (λ hs line. refl) headers (omega arith)
      (a_header, (c_header, tt))

parse_headers-AddsHeaders_example : AddsHeaders [] (codes "a: b" ∷ codes "c: \"d\"" ∷ [])
unfolding escaped
parse_headers-AddsHeaders_example =
    parse_headers-AddsHeaders always append_line (λ hs line next e. sym (cc (e)))
      (headers_text headers) [] (codes "a: b" ∷ codes "c: \"d\"" ∷ [])
      (parse_headers-text always (λ n. refl) append_line (λ hs line. refl) headers (omega arith)
        (a_header, (c_header, tt)))

-- A buffer with room for the catalogue.
abbrev roomy : ByteSink
roomy = record { bytes = replicate 100 0; len = 0; cap = 100; owned = false; overflow = false }

roomy-IsValid : IsValid roomy
roomy-IsValid = record {
  within = omega arith;
  cap_word = omega arith;
  owned_cap = λ e. absurd (cc);
  fits = inl (omega arith);
}

abbrev models_url : List ℕ
models_url = codes "http://h/coding-agent/v1/models"

serve_local_model_catalog-Catalogued_example :
    Catalogued grow_block env
      (codes "GET")
      models_url
      roomy
      (serve_local_model_catalog grow_block env (codes "GET") models_url roomy)
serve_local_model_catalog-Catalogued_example =
    serve_local_model_catalog-Catalogued grow_block grow_block-KeepsBytes env (codes "GET")
      models_url roomy roomy-IsValid

-- A server that answers nothing to a handle that does not check the certificate.
abbrev strict : List CurlOption → (List ℕ → ByteSink → ℕ × ByteSink) → ByteSink → Bool × ByteSink
strict handle write s = elim (peer_check handle) as (λ _. Bool × ByteSink) [
  | none ↦ (false, s)
  | some n ↦ ok_server.easy_perform handle write s
]

strict_agrees :
    (handle : List CurlOption) (write : List ℕ → ByteSink → ℕ × ByteSink) (s : ByteSink)
    → IsSecure env handle
    → ok_server.easy_perform handle write s ≡ strict handle write s
strict_agrees handle write s secure = rw (secure.peer, strict) refl

perform_request_secure_example :
    perform_request ok_server always grow_block env get sink
    ≡ perform_request (with_transfers ok_server strict) always grow_block env get sink
perform_request_secure_example =
    perform_request_secure ok_server strict always grow_block env strict_agrees get sink

parse_objects_fuel_example :
    (parse_objects always append_line 3 true (codes "{]") []
      ≡ parse_objects always append_line 9 true (codes "{]") [])
    × ((fields : HeaderFields)
        → parse_members always 3 true (codes "{]") fields
          ≡ parse_members always 9 true (codes "{]") fields)
parse_objects_fuel_example =
    parse_objects_fuel always append_line 3 9 true (codes "{]") [] (omega arith) (omega arith)
