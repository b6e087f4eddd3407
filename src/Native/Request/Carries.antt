-- ===== src/Native/Request/Carries.antt =====
-- What the options of `perform_request` ask the server for.
use esp32_fx.Native.Request.{
  Curl, CurlOption, custom_request, url, http_header, post_fields, post_field_size, write_function,
  write_data, set_options, request_options,
}
use esp32_fx.Prelude.{
  ℕ, ◌≡◌, ◌⊎◌, refl, sym, inl, inr, Bool, true, false, Option, none, some, List, [], ◌∷◌, length,
  ◌==◌, arith, Bool-cases,
}

-- The value of an option that was set last.
abbrev pub method_of : List CurlOption → Option (List ℕ)
method_of [] = none
method_of (custom_request text ∷ handle) = some text
method_of (_ ∷ handle) = method_of handle

abbrev pub url_of : List CurlOption → Option (List ℕ)
url_of [] = none
url_of (url text ∷ handle) = some text
url_of (_ ∷ handle) = url_of handle

abbrev pub headers_of : List CurlOption → Option (List (List ℕ))
headers_of [] = none
headers_of (http_header lines ∷ handle) = some lines
headers_of (_ ∷ handle) = headers_of handle

abbrev pub body_of : List CurlOption → Option (List ℕ)
body_of [] = none
body_of (post_fields text ∷ handle) = some text
body_of (_ ∷ handle) = body_of handle

abbrev pub body_size_of : List CurlOption → Option ℕ
body_size_of [] = none
body_size_of (post_field_size n ∷ handle) = some n
body_size_of (_ ∷ handle) = body_size_of handle

-- Whether the write callback is set, and its sink.
abbrev pub has_writer : List CurlOption → Bool
has_writer [] = false
has_writer (write_function ∷ handle) = true
has_writer (_ ∷ handle) = has_writer handle

abbrev pub has_sink : List CurlOption → Bool
has_sink [] = false
has_sink (write_data ∷ handle) = true
has_sink (_ ∷ handle) = has_sink handle

-- A handle that asks for a location with a method, headers and a body, none for an empty one, and gives the
-- response to the write callback.
pub record Carries (method location : List ℕ) (headers : List (List ℕ)) (body : List ℕ)
    (handle : List CurlOption) : Type 0 where
  pub its_method : method_of handle ≡ some method
  pub its_url : url_of handle ≡ some location
  pub its_headers : headers_of handle ≡ some headers
  pub its_body :
      ((length body ≡ 0) × (body_of handle ≡ none))
      ⊎ ((body_of handle ≡ some body) × (body_size_of handle ≡ some (length body)))
  pub writer : has_writer handle ≡ true
  pub sink : has_sink handle ≡ true

abbrev pub onto : List CurlOption → List CurlOption → List CurlOption
onto [] handle = handle
onto (option ∷ options) handle = onto options (option ∷ handle)

pub set_options-onto :
    (curl : Curl) (options handle set : List CurlOption)
    → set_options curl options handle ≡ some set
    → set ≡ onto options handle
unfolding set_options
set_options-onto curl [] handle set e = sym (cc (e))
set_options-onto curl (option ∷ options) handle set e =
    elim (Bool-cases (curl.easy_setopt option handle)) [
      | inl ok ↦ set_options-onto curl options (option ∷ handle) set (ground (arith, ok, e))
      | inr bad ↦ absurd (ground (arith, bad, e))
    ]

pub request_options-Carries :
    (curl : Curl) (trust method location : List ℕ) (headers : List (List ℕ)) (body : List ℕ)
    (set : List CurlOption)
    → set_options curl (request_options trust method location headers body) [] ≡ some set
    → Carries method location headers body set
unfolding request_options
request_options-Carries curl trust method location headers body set e =
    let same =
      set_options-onto curl (request_options trust method location headers body) [] set e in
    rw same (elim (Bool-cases (length body == 0)) [
      | inl empty ↦ rw empty (record {
        its_method = refl;
        its_url = refl;
        its_headers = refl;
        its_body = inl (ground (arith, empty), refl);
        writer = refl;
        sink = refl;
      })
      | inr full ↦ rw full (record {
        its_method = refl;
        its_url = refl;
        its_headers = refl;
        its_body = inr (refl, refl);
        writer = refl;
        sink = refl;
      })
    ])
