-- ===== src/Native/Request/Promises.antt =====
-- What libcurl promises, and what a request may do to its sink.
use esp32_fx.Native.Local.Answers.{catalog_text, fixture_events, text_of}
use esp32_fx.Native.Local.{Environment, Served, not_local, failed, served}
use esp32_fx.Native.Request.Carries.{Carries}
use esp32_fx.Native.Request.{Curl, CurlOption, Request, max_method_bytes, max_url_bytes, status_of}
use esp32_fx.Native.Headers.{parse_headers}
use esp32_fx.Native.Url.{copy_string, rewrite_gateway_url}
use esp32_fx.Native.Sink.Write.{IsValid}
use esp32_fx.Native.Sink.{ByteSink, received}
use esp32_fx.Prelude.{
  ℕ, ◌<◌, ◌≡◌, ◌⊎◌, refl, inl, inr, Bool, true, Option, some, List, [], ◌++◌, length,
}

-- Calls of the write callback, in any number, from one sink to another.
pub data Calls (write : List ℕ → ByteSink → ℕ × ByteSink) (s : ByteSink) : ByteSink → Type 0 where
  no_call : Calls write s s
  one_more : {t : ByteSink} → Calls write s t → (bytes : List ℕ) → Calls write s (write bytes t).1

-- Calls that took all their bytes, with the bytes of all of them.
pub data Delivers (write : List ℕ → ByteSink → ℕ × ByteSink) (s : ByteSink)
    : List ℕ → ByteSink → Type 0 where
  nothing : Delivers write s [] s
  one_chunk :
      {body : List ℕ} {t : ByteSink}
      → Delivers write s body t
      → (bytes : List ℕ) → (write bytes t).0 ≡ length bytes
      → Delivers write s (body ++ bytes) (write bytes t).1

-- What libcurl promises of `curl_easy_perform`: it touches the sink by calling the callback alone, and
-- a transfer that succeeds has handed over the body of the response, in calls that took all their bytes.
pub record CurlLaws (curl : Curl) : Type 0 where
  pub only_calls :
      (handle : List CurlOption) (write : List ℕ → ByteSink → ℕ × ByteSink) (s : ByteSink)
      → Calls write s (curl.easy_perform handle write s).1
  pub delivers :
      (handle : List CurlOption) (write : List ℕ → ByteSink → ℕ × ByteSink) (s : ByteSink)
      → (curl.easy_perform handle write s).0 ≡ true
      → Delivers write s (curl.body handle) (curl.easy_perform handle write s).1

-- A handle that carries a request, to a location and with the guest's headers and body.
abbrev pub Sets : Curl → (ℕ → Bool) → Request → List ℕ → List ℕ → List CurlOption → Type 0
Sets curl has_memory request method location handle =
    (headers : List (List ℕ)) × (parse_headers has_memory curl.slist_append request.headers []
      ≡ some headers)
    × Carries method location headers request.body handle

-- The handle of what the guest asks for: its method, and its URL where the gateway is rewritten.
abbrev pub IsRequest : Curl → (ℕ → Bool) → Environment → Request → List CurlOption → Type 0
IsRequest curl has_memory env request handle =
    (method : List ℕ) × (location : List ℕ) × (copy_string has_memory request.method
        max_method_bytes
      ≡ some method)
    × (copy_string has_memory request.url max_url_bytes ≡ some location)
    × Sets curl has_memory request method
        (rewrite_gateway_url has_memory env.gateway_base_url location) handle

-- A transfer of a handle into the sink that succeeded with a status.
abbrev pub Transferred :
    Curl → (List ℕ → ByteSink → ℕ × ByteSink) → List CurlOption → ByteSink → ℕ → Type 0
Transferred curl write handle s status =
    ((curl.easy_perform handle write s).0 ≡ true)
    × (status_of (curl.response_code handle s) ≡ some status)

-- What a request may do to its sink. The response of one that succeeds is the catalogue, the fixture,
-- or the body that the server answered to a transfer of the request's handle, which succeeded.
pub record Responds (curl : Curl) (write : List ℕ → ByteSink → ℕ × ByteSink) (env : Environment)
    (Ours : List CurlOption → Type 0) (s : ByteSink) (out : Option ℕ × ByteSink) : Type 0 where
  pub valid : IsValid out.1
  pub same_cap : out.1.cap ≡ s.cap
  pub same_owned : out.1.owned ≡ s.owned
  pub status_word : (n : ℕ) → out.0 ≡ some n → n < 65536
  pub response :
      (n : ℕ)
      → out.0 ≡ some n
      → (received out.1 ≡ received s ++ catalog_text env.model)
        ⊎ (received out.1 ≡ received s ++ fixture_events (text_of env.fixture_text))
        ⊎ ((handle : List CurlOption) × Ours handle
            × Transferred curl write handle s n
            × (received out.1 ≡ received s ++ curl.body handle))

pub Served-cases : (a : Served) → (a ≡ not_local) ⊎ (a ≡ failed) ⊎ ((n : ℕ) × (a ≡ served n))
Served-cases not_local = inl refl
Served-cases failed = inr (inl refl)
Served-cases (served n) = inr (inr (n, refl))
