-- ===== src/Native/Url.antt =====
-- runtime/fx_wamr_native.c: `copy_string` and `rewrite_gateway_url`. Whether `malloc` finds memory for
-- a given size is a parameter; a C string is the list of its bytes before the NUL.
pub mod Rewrite
use esp32_fx.Prelude.{
  ℕ, zero, suc, ◌+◌, ◌-◌, Bool, true, false, not, ◌&&◌, ◌||◌, Option, none, some, List, [], ◌∷◌,
  ◌++◌, length, get_or, take, drop, ltb, ◌==◌, if◌then◌else◌, add_size, sub_size, size_max,
  has_char, starts_with, codes,
}

-- `none` is NULL.
pub copy_string : (ℕ → Bool) → List ℕ → ℕ → Option (List ℕ)
copy_string has_memory bytes limit =
    if length bytes == 0 || ltb limit (length bytes) || has_char 0 bytes
    then none
    else if has_memory (add_size (length bytes) 1)
    then some bytes
    else none

-- `origin`
abbrev pub gateway_origin : List ℕ
gateway_origin = codes "https://ai-gateway.vercel.sh"

-- The two tests of the base.
pub is_loopback : List ℕ → Bool
is_loopback base =
    starts_with (codes "http://127.0.0.1:") base || starts_with (codes "http://localhost:") base

-- `base_len`, after its loop: the length without trailing slashes.
pub slash_end : ℕ → List ℕ → ℕ
slash_end zero base = 0
slash_end (suc n) base =
    let shorter = slash_end n base in if get_or base n 0 == b'/' then shorter else suc n

-- `url[sizeof(origin) - 1U]` is the NUL or a slash.
pub ends_origin : List ℕ → Bool
ends_origin [] = true
ends_origin (byte ∷ path) = byte == b'/'

-- The URL with its origin replaced, behind the tests of base and URL.
pub replace_origin : (ℕ → Bool) → List ℕ → List ℕ → List ℕ
replace_origin has_memory base url =
    let path = drop (length gateway_origin) url in
    let base_len = slash_end (length base) base in
    if ltb (sub_size (sub_size size_max (length path)) 1) base_len
    then url
    else if has_memory (add_size (add_size base_len (length path)) 1)
    then take base_len base ++ path
    else url

-- `base` is FX_WAMR_GATEWAY_BASE_URL of the environment.
pub rewrite_gateway_url : (ℕ → Bool) → Option (List ℕ) → List ℕ → List ℕ
rewrite_gateway_url has_memory none url = url
rewrite_gateway_url has_memory (some base) url =
    if length base == 0 || not (starts_with gateway_origin url)
    then url
    else if not (ends_origin (drop (length gateway_origin) url))
    then url
    else if not (is_loopback base)
    then url
    else replace_origin has_memory base url
