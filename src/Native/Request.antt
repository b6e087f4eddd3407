-- ===== src/Native/Request.antt =====
-- runtime/fx_wamr_native.c: `perform_request` and the import `fx_http_request`, in the board's build,
-- with FX_WAMR_MBEDTLS_STREAM_CA. libcurl is a parameter, the record `Curl`; so are `malloc` (by the
-- sizes it has memory for) and `realloc`.
pub mod Carries
pub mod Promises
pub mod Keeps
pub mod Result
pub mod Secure
mod Tests
use esp32_fx.Native.Headers.{parse_headers}
use esp32_fx.Native.Local.{
  Environment, Served, not_local, failed, served, serve_local_model_catalog, serve_fixture_chat,
}
use esp32_fx.Native.Sink.{ByteSink, write_body}
use esp32_fx.Native.Url.{copy_string, rewrite_gateway_url}
use esp32_fx.Prelude.{
  ℕ, zero, suc, ◌+◌, ◌*◌, Bool, true, false, not, ◌&&◌, ◌||◌, Option, none, some, List, [], ◌∷◌,
  ◌++◌, length, ltb, ◌==◌, ◌>>=◌, if◌then◌else◌, codes, ℤ, pos, negsuc, minus_one, minus_two, int32,
}

-- FX_WAMR_MAX_METHOD_BYTES
abbrev pub max_method_bytes : ℕ
max_method_bytes = 16

-- FX_WAMR_MAX_URL_BYTES
abbrev pub max_url_bytes : ℕ
max_url_bytes = 8192

-- FX_WAMR_CURL_IO_BYTES
abbrev pub curl_io_bytes : ℕ
curl_io_bytes = 16 * 1024

-- What `curl_easy_setopt` is called with: the options that the code sets, and their values.
pub data CurlOption : Type 0 where
  ca_info_null ca_path_null ssl_ctx_function write_function error_buffer ip_resolve_v4
        http_version_1_1 :
      CurlOption
  write_data : CurlOption
  ssl_ctx_data : List ℕ → CurlOption
  url : List ℕ → CurlOption
  custom_request : List ℕ → CurlOption
  http_header : List (List ℕ) → CurlOption
  buffer_size upload_buffer_size connect_timeout timeout no_signal ssl_verify_peer ssl_verify_host :
      ℕ → CurlOption
  accept_encoding : List ℕ → CurlOption
  protocols : List ℕ → CurlOption
  post_fields : List ℕ → CurlOption
  post_field_size : ℕ → CurlOption

-- libcurl. A handle is the list of the options set, the last one first. `easy_perform` gets the write
-- callback and its sink, and gives whether the transfer succeeded, and the sink; `response_code` is
-- what `curl_easy_getinfo` gives after it. `body` is the body of the server's response to the request
-- of a handle, which no code reads but through the write callback.
pub record Curl : Type 0 where
  pub easy_init : Bool
  pub easy_setopt : CurlOption → List CurlOption → Bool
  pub slist_append : List (List ℕ) → List ℕ → Option (List (List ℕ))
  pub easy_perform :
      List CurlOption → (List ℕ → ByteSink → ℕ × ByteSink) → ByteSink → Bool × ByteSink
  pub response_code : List CurlOption → ByteSink → Option ℤ
  pub body : List CurlOption → List ℕ

-- What the guest passes.
pub record Request : Type 0 where
  pub method : List ℕ
  pub url : List ℕ
  pub headers : List ℕ
  pub body : List ℕ

abbrev pub default_ca_bundle : List ℕ
default_ca_bundle = codes "/etc/ssl/certs/ca-certificates.crt"

abbrev pub trust_path : Environment → List ℕ
trust_path env = elim env.ca_bundle as (λ _. List ℕ) [ none ↦ default_ca_bundle | some path ↦ path ]

pub is_absolute : List ℕ → Bool
is_absolute [] = false
is_absolute (byte ∷ path) = byte == b'/'

-- The options in the order of the calls.
pub request_options : List ℕ → List ℕ → List ℕ → List (List ℕ) → List ℕ → List CurlOption
request_options trust method location headers body =
    ca_info_null
    ∷ ca_path_null
    ∷ ssl_ctx_function
    ∷ ssl_ctx_data trust
    ∷ url location
    ∷ custom_request method
    ∷ http_header headers
    ∷ write_function
    ∷ write_data
    ∷ error_buffer
    ∷ buffer_size curl_io_bytes
    ∷ upload_buffer_size curl_io_bytes
    ∷ ip_resolve_v4
    ∷ http_version_1_1
    ∷ connect_timeout 15
    ∷ timeout 180
    ∷ no_signal 1
    ∷ ssl_verify_peer 1
    ∷ ssl_verify_host 2
    ∷ accept_encoding []
    ∷ protocols (codes "http,https")
    ∷ (if length body == 0 then [] else post_fields body ∷ post_field_size (length body) ∷ [])

-- A status fits an `uint16_t`.
pub status_of : Option ℤ → Option ℕ
status_of (some (pos n)) = if ltb 65535 n then none else some n
status_of _ = none

-- What the import returns.
pub http_result : Option ℕ → ByteSink → ℤ
http_result none sink = if sink.overflow then minus_two else minus_one
http_result (some _) sink = int32 sink.len

module _ (curl : Curl) where
  -- The calls of `curl_easy_setopt`, up to the first that fails.
  pub set_options : List CurlOption → List CurlOption → Option (List CurlOption)
  set_options [] handle = some handle
  set_options (option ∷ options) handle =
      let rest = set_options options (option ∷ handle) in
      if curl.easy_setopt option handle then rest else none

  module _ (has_memory : ℕ → Bool) (realloc : List ℕ → ℕ → Option (List ℕ)) where
    -- The callback as libcurl calls it, with an element size of 1.
    pub write_callback : List ℕ → ByteSink → ℕ × ByteSink
    write_callback bytes sink = write_body realloc bytes 1 (length bytes) sink

    -- `curl_easy_perform` and the status behind it; `none` is the result -1, here and below.
    pub transfer : List CurlOption → ByteSink → Option ℕ × ByteSink
    transfer handle sink =
        let (ok, sink') = curl.easy_perform handle write_callback sink in
        (if ok then status_of (curl.response_code handle sink) else none, sink')

    -- The exchange with the network.
    pub exchange : Environment → Request → List ℕ → List ℕ → ByteSink → Option ℕ × ByteSink
    exchange env request method location sink =
        let handle = (do
          headers ← parse_headers has_memory curl.slist_append request.headers []
          set_options (request_options (trust_path env) method location headers request.body) []) in
        elim (if curl.easy_init && is_absolute (trust_path env) then handle else none) [
          | none ↦ (none, sink)
          | some options ↦ transfer options sink
        ]

    -- The request, if it is not answered from the catalogue.
    pub request_fixture : Environment → Request → List ℕ → List ℕ → ByteSink → Option ℕ × ByteSink
    request_fixture env request method location sink =
        let (answer, sink') = serve_fixture_chat realloc env method sink in
        elim answer [
          | failed ↦ (none, sink')
          | served status ↦ (some status, sink')
          | not_local ↦ exchange env request method location sink'
        ]

    pub request_local : Environment → Request → List ℕ → List ℕ → ByteSink → Option ℕ × ByteSink
    request_local env request method location sink =
        let (answer, sink') = serve_local_model_catalog realloc env method location sink in
        elim answer [
          | failed ↦ (none, sink')
          | served status ↦ (some status, sink')
          | not_local ↦ request_fixture env request method location sink'
        ]

    -- The status, and the sink with the response.
    pub perform_request : Environment → Request → ByteSink → Option ℕ × ByteSink
    perform_request env request sink =
        elim (copy_string has_memory request.method max_method_bytes) [
          | none ↦ (none, sink)
          | some method ↦ elim (copy_string has_memory request.url max_url_bytes) [
            | none ↦ (none, sink)
            | some location ↦
                request_local env request method
                  (rewrite_gateway_url has_memory env.gateway_base_url location) sink
          ]
        ]

    -- The result, the status, and the guest's buffer. `response` is the whole buffer, of at least
    -- `response_cap` bytes.
    pub fx_http_request : Environment → Request → List ℕ → ℕ → ℤ × Option ℕ × List ℕ
    fx_http_request env request response response_cap =
        let sink : ByteSink = record {
          bytes = response;
          len = 0;
          cap = response_cap;
          owned = false;
          overflow = false;
        } in
        let (status, sink') = perform_request env request sink in
        (http_result status sink', status, sink'.bytes)
