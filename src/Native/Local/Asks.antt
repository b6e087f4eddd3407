-- ===== src/Native/Local/Asks.antt =====
-- Which requests ask for the catalogue, and which names of models are allowed.
use esp32_fx.Native.Local.{
  Environment, is_model_char, model_chars_safe, is_model_id_safe, asks_catalog, catalog_suffix,
}
use esp32_fx.Prelude.{
  ℕ, ◌+◌, ◌-◌, ◌≤◌, ◌<◌, ◌≡◌, ◌⊎◌, refl, sym, ap, ◌∙◌, inl, inr, true, false, some, List, [], ◌∷◌,
  ◌++◌, length, take, drop, length-append, take-append-drop, ltb, All, arith, Option-cases,
  same_text, same_text_eq, same_text_refl, codes,
}

-- A request for the models, with the local catalogue switched on.
pub record AsksCatalog (env : Environment) (method url : List ℕ) : Type 0 where
  pub enabled : env.local_model_catalog ≡ some (codes "1")
  pub gets : method ≡ codes "GET"
  pub place : List ℕ
  pub models : url ≡ place ++ codes "/coding-agent/v1/models"

-- Letters, digits, and six marks.
abbrev pub IsModelChar : ℕ → Type 0
IsModelChar ch =
    ((b'a' ≤ ch) × (ch ≤ b'z'))
    ⊎ ((b'A' ≤ ch) × (ch ≤ b'Z'))
    ⊎ ((b'0' ≤ ch) × (ch ≤ b'9'))
    ⊎ (ch ≡ b'-')
    ⊎ (ch ≡ b'_')
    ⊎ (ch ≡ b'.')
    ⊎ (ch ≡ b'/')
    ⊎ (ch ≡ b':')

pub record IsModelId (model : List ℕ) : Type 0 where
  pub nonempty : 0 < length model
  pub short : length model ≤ 256
  pub plain : All IsModelChar model

drop-length : (xs ys : List ℕ) → drop (length xs) (xs ++ ys) ≡ ys
drop-length [] ys = refl
drop-length (x ∷ xs) ys = drop-length xs ys

is_model_char-IsModelChar : (ch : ℕ) → is_model_char ch ≡ true → IsModelChar ch
is_model_char-IsModelChar ch e = ground arith

IsModelChar-is_model_char : (ch : ℕ) → IsModelChar ch → is_model_char ch ≡ true
IsModelChar-is_model_char ch e = ground arith

model_chars-plain :
    (n : ℕ) (model : List ℕ)
    → n ≤ 256
    → model_chars_safe n model ≡ true
    → (0 < n + length model) × (n + length model ≤ 256) × All IsModelChar model
unfolding model_chars_safe
model_chars-plain n [] h e = (ground arith, omega arith, tt)
model_chars-plain n (ch ∷ model) h e =
    let here : is_model_char ch ≡ true = ground arith in
    let (some_there, short, plain) =
      model_chars-plain (n + 1) model (ground arith) (ground (arith, here, e)) in
    (omega arith, omega (arith, short), (is_model_char-IsModelChar ch here, plain))

plain-model_chars :
    (n : ℕ) (model : List ℕ)
    → 0 < n + length model
    → n + length model ≤ 256
    → All IsModelChar model
    → model_chars_safe n model ≡ true
unfolding model_chars_safe
plain-model_chars n [] some_there short plain = ground arith
plain-model_chars n (ch ∷ model) some_there short (here, plain) = ground (
  arith,
  IsModelChar-is_model_char ch here,
  plain-model_chars (n + 1) model (omega arith) (omega (arith, short)) plain,
)

pub is_model_id_safe-IsModelId : (model : List ℕ) → is_model_id_safe model ≡ true → IsModelId model
unfolding is_model_id_safe
is_model_id_safe-IsModelId model e =
    let (some_there, short, plain) = model_chars-plain 0 model (omega arith) e in
    record { nonempty = omega (arith, some_there); short = omega (arith, short); plain = plain }

pub unsafe-IsModelId : (model : List ℕ) → is_model_id_safe model ≡ false → ¬ (IsModelId model)
unfolding is_model_id_safe
unsafe-IsModelId model e id = absurd (
    cc (
      e,
      plain-model_chars 0 model (omega (arith, id.nonempty)) (omega (arith, id.short)) id.plain,
    ))

pub asks_catalog-AsksCatalog :
    (env : Environment) (method url : List ℕ)
    → asks_catalog env method url ≡ true
    → AsksCatalog env method url
unfolding asks_catalog
asks_catalog-AsksCatalog env method url e = elim (Option-cases env.local_model_catalog) [
  | inl off ↦ absurd (ground (arith, off, e))
  | inr (text, set) ↦
      let at = length url - length catalog_suffix in
      let one : same_text text (codes "1") ≡ true = ground (arith, set, e) in
      let get : same_text method (codes "GET") ≡ true = ground (arith, set, e) in
      let end : same_text (drop at url) catalog_suffix ≡ true = ground (arith, set, e) in
      record {
        enabled = set ∙ ap some (same_text_eq text (codes "1") one);
        gets = same_text_eq method (codes "GET") get;
        place = take at url;
        models =
            sym (take-append-drop at url)
            ∙ ap (λ rest. take at url ++ rest) (same_text_eq (drop at url) catalog_suffix end);
      }
]

pub AsksCatalog-asks_catalog :
    (env : Environment) (method url : List ℕ)
    → AsksCatalog env method url
    → asks_catalog env method url ≡ true
unfolding asks_catalog
AsksCatalog-asks_catalog env method url asks =
    let long : length url ≡ length asks.place + length catalog_suffix =
      ap (λ (text : List ℕ). length text) asks.models ∙ length-append asks.place catalog_suffix in
    let at : length url - length catalog_suffix ≡ length asks.place = omega (arith, long) in
    let end : drop (length url - length catalog_suffix) url ≡ catalog_suffix =
      ap (λ n. drop n url) at
      ∙ ap (λ text. drop (length asks.place) text) asks.models
      ∙ drop-length asks.place catalog_suffix in
    let enough : ltb (length url) (length catalog_suffix) ≡ false = ground (arith, long) in
    rw
      (
        asks.enabled,
        asks.gets,
        end,
        enough,
        same_text_refl (codes "1"),
        same_text_refl (codes "GET"),
      )
      (same_text_refl catalog_suffix)
