-- ===== src/Eink/Keys/Objects.antt =====
-- Objects whose values are strings, as text.
use esp32_fx.Eink.Json.RoundTrip.{quoted}
use esp32_fx.Prelude.{same_text, ℕ, Option, none, some, List, [], ◌∷◌, ◌++◌, if◌then◌else◌}

-- The members, from the character before the first one on.
abbrev pub members : ℕ → List (List ℕ × List ℕ) → List ℕ
members before [] = b'}' ∷ []
members before ((key, value) ∷ pairs) =
    before ∷ (quoted key ++ (b':' ∷ (quoted value ++ members b',' pairs)))

-- `{"key":"value","key":"value"}`
abbrev pub object : List (List ℕ × List ℕ) → List ℕ
object [] = b'{' ∷ b'}' ∷ []
object (pair ∷ pairs) = members b'{' (pair ∷ pairs)

abbrev pub lookup : List ℕ → List (List ℕ × List ℕ) → Option (List ℕ)
lookup wanted [] = none
lookup wanted ((key, value) ∷ pairs) =
    if same_text key wanted then some value else lookup wanted pairs
