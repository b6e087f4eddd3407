-- ===== src/Native/Url/Rewrite.antt =====
-- What `rewrite_gateway_url` may change.
use esp32_fx.Native.Url.{gateway_origin, ends_origin}
use esp32_fx.Prelude.{ℕ, ◌≡◌, ◌⊎◌, true, List, ◌∷◌, ◌++◌, codes}

-- A URL that begins with `http://`, one of the two names of the host itself, and a colon.
abbrev pub IsLocal : List ℕ → Type 0
IsLocal url =
    (host : List ℕ) × (rest : List ℕ) × ((host ≡ codes "127.0.0.1") ⊎ (host ≡ codes "localhost"))
    × (url ≡ codes "http://" ++ (host ++ b':' ∷ rest))

-- A URL of the gateway, and the same path at a base of the host itself.
pub record Moved (url result : List ℕ) : Type 0 where
  pub path : List ℕ
  pub before : url ≡ gateway_origin ++ path
  pub path_start : ends_origin path ≡ true
  pub base : List ℕ
  pub after : result ≡ base ++ path
  pub local : IsLocal result
