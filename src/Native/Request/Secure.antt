-- ===== src/Native/Request/Secure.antt =====
-- The options under which a transfer may run.
use esp32_fx.Native.Request.Promises.{Served-cases}
use esp32_fx.Native.Request.Carries.{set_options-onto}
use esp32_fx.Native.Headers.{parse_headers}
use esp32_fx.Native.Local.{Environment, serve_local_model_catalog, serve_fixture_chat}
use esp32_fx.Native.Request.{
  Curl, Request, CurlOption, ca_info_null, ca_path_null, ssl_ctx_function, ssl_ctx_data,
  ssl_verify_peer, ssl_verify_host, protocols, max_method_bytes, max_url_bytes, write_callback,
  transfer, exchange, request_fixture, request_local, perform_request, is_absolute, trust_path,
  set_options, request_options,
}
use esp32_fx.Native.Sink.{ByteSink}
use esp32_fx.Native.Url.{copy_string, rewrite_gateway_url}
use esp32_fx.Prelude.{
  ℕ, ◌≡◌, refl, ap, inl, inr, Bool, true, false, ◌&&◌, Option, none, some, List, [], ◌∷◌, length,
  ◌==◌, if◌then◌else◌, arith, Bool-cases, Option-cases, codes,
}

-- The value of an option that was set last.
abbrev pub peer_check : List CurlOption → Option ℕ
peer_check [] = none
peer_check (ssl_verify_peer n ∷ handle) = some n
peer_check (_ ∷ handle) = peer_check handle

abbrev pub host_check : List CurlOption → Option ℕ
host_check [] = none
host_check (ssl_verify_host n ∷ handle) = some n
host_check (_ ∷ handle) = host_check handle

abbrev pub allowed_protocols : List CurlOption → Option (List ℕ)
allowed_protocols [] = none
allowed_protocols (protocols text ∷ handle) = some text
allowed_protocols (_ ∷ handle) = allowed_protocols handle

abbrev pub trust_file : List CurlOption → Option (List ℕ)
trust_file [] = none
trust_file (ssl_ctx_data path ∷ handle) = some path
trust_file (_ ∷ handle) = trust_file handle

-- Whether the callback that loads the roots into the TLS context is installed.
abbrev pub loads_roots : List CurlOption → Bool
loads_roots [] = false
loads_roots (ssl_ctx_function ∷ handle) = true
loads_roots (_ ∷ handle) = loads_roots handle

-- Whether the file of roots that libcurl has by default is set to none, and the directory.
abbrev pub no_ca_file : List CurlOption → Bool
no_ca_file [] = false
no_ca_file (ca_info_null ∷ handle) = true
no_ca_file (_ ∷ handle) = no_ca_file handle

abbrev pub no_ca_directory : List CurlOption → Bool
no_ca_directory [] = false
no_ca_directory (ca_path_null ∷ handle) = true
no_ca_directory (_ ∷ handle) = no_ca_directory handle

-- A handle that checks the certificate and its host's name, and speaks HTTP and HTTPS alone. libcurl's
-- own roots are switched off, and the callback `load_trust_roots` is installed with the environment's
-- file, whose path is absolute.
pub record IsSecure (env : Environment) (handle : List CurlOption) : Type 0 where
  pub peer : peer_check handle ≡ some 1
  pub host : host_check handle ≡ some 2
  pub only_http : allowed_protocols handle ≡ some (codes "http,https")
  pub loader : loads_roots handle ≡ true
  pub roots : trust_file handle ≡ some (trust_path env)
  pub absolute : is_absolute (trust_path env) ≡ true
  pub no_file : no_ca_file handle ≡ true
  pub no_directory : no_ca_directory handle ≡ true

request_options-IsSecure :
    (curl : Curl) (env : Environment) (method location : List ℕ) (headers : List (List ℕ))
    (body : List ℕ) (set : List CurlOption)
    → is_absolute (trust_path env) ≡ true
    → set_options curl (request_options (trust_path env) method location headers body) [] ≡ some set
    → IsSecure env set
unfolding request_options
request_options-IsSecure curl env method location headers body set a e =
    let same =
      set_options-onto curl (request_options (trust_path env) method location headers body) [] set
        e in
    rw same (elim (Bool-cases (length body == 0)) [
      | inl empty ↦ rw empty (record {
        peer = refl;
        host = refl;
        only_http = refl;
        loader = refl;
        roots = refl;
        absolute = a;
        no_file = refl;
        no_directory = refl;
      })
      | inr full ↦ rw full (record {
        peer = refl;
        host = refl;
        only_http = refl;
        loader = refl;
        roots = refl;
        absolute = a;
        no_file = refl;
        no_directory = refl;
      })
    ])

module _ (curl : Curl)
    (other : List CurlOption
      → (List ℕ → ByteSink → ℕ × ByteSink)
      → ByteSink
      → Bool × ByteSink) where
  -- The same library, but for its transfers.
  abbrev pub with_transfers : Curl
  with_transfers = record {
    easy_init = curl.easy_init;
    easy_setopt = curl.easy_setopt;
    slist_append = curl.slist_append;
    easy_perform = other;
    response_code = curl.response_code;
    body = curl.body;
  }

  set_options-with_transfers :
      (options handle : List CurlOption)
      → set_options with_transfers options handle ≡ set_options curl options handle
  unfolding set_options
  set_options-with_transfers [] handle = refl
  set_options-with_transfers (option ∷ options) handle =
      ap (λ r. if curl.easy_setopt option handle then r else none)
        (set_options-with_transfers options (option ∷ handle))

  module _ (has_memory : ℕ → Bool) (realloc : List ℕ → ℕ → Option (List ℕ)) (env : Environment)
      (agree : (handle : List CurlOption) (write : List ℕ → ByteSink → ℕ × ByteSink) (s : ByteSink)
        → IsSecure env handle
        → curl.easy_perform handle write s ≡ other handle write s) where
    transfer_secure :
        (handle : List CurlOption) (s : ByteSink)
        → IsSecure env handle
        → transfer curl has_memory realloc handle s
          ≡ transfer with_transfers has_memory realloc handle s
    unfolding transfer write_callback
    transfer_secure handle s secure =
        rw (agree handle (write_callback curl has_memory realloc) s secure) refl

    exchange_secure :
        (request : Request) (method location : List ℕ) (s : ByteSink)
        → exchange curl has_memory realloc env request method location s
          ≡ exchange with_transfers has_memory realloc env request method location s
    unfolding exchange
    exchange_secure request method location s =
        elim (Bool-cases (curl.easy_init && is_absolute (trust_path env))) [
          | inr no_handle ↦ rw (no_handle, exchange) refl
          | inl handle ↦
              elim (Option-cases (parse_headers has_memory curl.slist_append request.headers [])) [
                | inl bad ↦ rw (handle, exchange, bad) refl
                | inr (headers, parsed) ↦
                    let options =
                      request_options (trust_path env) method location headers request.body in
                    elim (Option-cases (set_options curl options [])) [
                      | inl bad ↦
                          rw (handle, exchange, parsed, set_options-with_transfers options [], bad)
                            refl
                      | inr (set, done) ↦
                          rw (handle, exchange, parsed, set_options-with_transfers options [], done)
                            (transfer_secure set s (
                              request_options-IsSecure curl env method location headers request.body
                                set (ground (arith, handle)) done))
                    ]
              ]
        ]

    request_fixture_secure :
        (request : Request) (method location : List ℕ) (s : ByteSink)
        → request_fixture curl has_memory realloc env request method location s
          ≡ request_fixture with_transfers has_memory realloc env request method location s
    unfolding request_fixture
    request_fixture_secure request method location s =
        elim (Served-cases (serve_fixture_chat realloc env method s).0) [
          | inl e ↦
              rw (e, request_fixture)
                (exchange_secure request method location
                  (serve_fixture_chat realloc env method s).1)
          | inr (inl e) ↦ rw (e, request_fixture) refl
          | inr (inr (status, e)) ↦ rw (e, request_fixture) refl
        ]

    request_local_secure :
        (request : Request) (method location : List ℕ) (s : ByteSink)
        → request_local curl has_memory realloc env request method location s
          ≡ request_local with_transfers has_memory realloc env request method location s
    unfolding request_local
    request_local_secure request method location s =
        elim (Served-cases (serve_local_model_catalog realloc env method location s).0) [
          | inl e ↦
              rw (e, request_local)
                (request_fixture_secure request method location
                  (serve_local_model_catalog realloc env method location s).1)
          | inr (inl e) ↦ rw (e, request_local) refl
          | inr (inr (status, e)) ↦ rw (e, request_local) refl
        ]

    -- If two libraries differ in their transfers alone, and agree there on every secure handle, then every
    -- request has the same result over both: no transfer runs on another handle. A secure handle checks the
    -- certificate and its host's name, allows HTTP and HTTPS alone, has libcurl's own file and directory of
    -- roots set to none, and has the callback `load_trust_roots` installed with the path of the environment's
    -- roots, an absolute one. What that callback loads from there is not part of the model.
    pub perform_request_secure :
        (request : Request) (s : ByteSink)
        → perform_request curl has_memory realloc env request s
          ≡ perform_request with_transfers has_memory realloc env request s
    unfolding perform_request
    perform_request_secure request s =
        elim (Option-cases (copy_string has_memory request.method max_method_bytes)) [
          | inl e ↦ rw (e, perform_request) refl
          | inr (method, e) ↦
              elim (Option-cases (copy_string has_memory request.url max_url_bytes)) [
                | inl f ↦ rw (e, perform_request, f) refl
                | inr (location, f) ↦
                    rw (e, perform_request, f)
                      (request_local_secure request method
                        (rewrite_gateway_url has_memory env.gateway_base_url location) s)
              ]
        ]
