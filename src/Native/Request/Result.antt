-- ===== src/Native/Request/Result.antt =====
-- What the import `fx_http_request` returns.
use esp32_fx.Native.Request.Promises.{IsRequest, Transferred}
use esp32_fx.Native.Local.Answers.{catalog_text, fixture_events, text_of}
use esp32_fx.Native.Local.{Environment}
use esp32_fx.Native.Request.{Curl, CurlOption, Request}
use esp32_fx.Native.Sink.{ByteSink}
use esp32_fx.Prelude.{
  ℕ, ◌≤◌, ◌<◌, ◌≡◌, ◌⊎◌, Bool, false, Option, none, some, List, take, ℤ, minus_one, minus_two,
  int32,
}

-- What the import returns, and what is then in the guest's buffer: an error and no status, or the length
-- and the status of a response within the buffer.
abbrev pub HttpResult :
    Curl
    → (ℕ → Bool)
    → (List ℕ → ByteSink → ℕ × ByteSink)
    → Environment
    → Request
    → ByteSink
    → ℤ × Option ℕ × List ℕ
    → Type 0
HttpResult curl has_memory write env request sink (result, status, bytes) =
    ((status ≡ none) × ((result ≡ minus_one) ⊎ (result ≡ minus_two)))
    ⊎ ((n : ℕ) × (len : ℕ) × (status ≡ some n)
        × (n < 65536)
        × (len ≤ sink.cap)
        × (result ≡ int32 len)
        × ((take len bytes ≡ catalog_text env.model)
            ⊎ (take len bytes ≡ fixture_events (text_of env.fixture_text))
            ⊎ ((handle : List CurlOption) × IsRequest curl has_memory env request handle
                × Transferred curl write handle sink n
                × (take len bytes ≡ curl.body handle))))

-- The guest's buffer as a sink.
abbrev pub guest_sink : List ℕ → ℕ → ByteSink
guest_sink response capacity = record {
  bytes = response;
  len = 0;
  cap = capacity;
  owned = false;
  overflow = false;
}
