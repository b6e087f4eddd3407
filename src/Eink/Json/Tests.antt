-- ===== src/Eink/Json/Tests.antt =====
-- The theorems about the protocol's text at concrete inputs.
use esp32_fx.Eink.Buffer.Laws.{IsValid}
use esp32_fx.Eink.Buffer.{TextBuffer, empty_buffer}
use esp32_fx.Eink.Json.RoundTrip.{quoted, decode_json_string-quoted}
use esp32_fx.Eink.Json.Writing.{Appends}
use esp32_fx.Eink.Json.{decode_json_string}
use esp32_fx.Prelude.{ℕ, ◌≡◌, refl, sym, Bool, true, Option, some, List, [], ◌∷◌, ◌++◌, arith}

always : ℕ → Bool
always n = true

-- A stream that takes every write.
append_to : List ℕ → List ℕ → Option (List ℕ)
append_to text f = some (f ++ text)

append_to-Appends : Appends append_to (λ f. f)
unfolding append_to
append_to-Appends text f g e = sym (cc (e))

-- A quote, a newline and a bell.
abbrev awkward : List ℕ
awkward = b'"' ∷ b'\n' ∷ 7 ∷ []

decode_json_string-quoted_example :
    (c : TextBuffer) × (decode_json_string always (quoted awkward ++ (b',' ∷ [])) empty_buffer
      ≡ some (b',' ∷ [], c))
    × (c.bytes ≡ awkward)
    × IsValid c
unfolding always
decode_json_string-quoted_example =
    decode_json_string-quoted always awkward (b',' ∷ []) (λ n. refl) (omega arith)
