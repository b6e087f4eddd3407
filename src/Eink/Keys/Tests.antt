-- ===== src/Eink/Keys/Tests.antt =====
-- The search for a key in a concrete object.
use esp32_fx.Eink.Keys.Lookup.{Answers, IsMember, json_string_value_lem}
use esp32_fx.Eink.Keys.Objects.{object, lookup}
use esp32_fx.Eink.Keys.{json_string_value}
use esp32_fx.Prelude.{ℕ, refl, Bool, true, List, [], ◌∷◌, arith}

always : ℕ → Bool
always n = true

-- The text of the first value looks like the second key.
abbrev pairs : List (List ℕ × List ℕ)
pairs = (b'a' ∷ [], b'"' ∷ b'b' ∷ b'"' ∷ b':' ∷ []) ∷ (b'b' ∷ [], b'o' ∷ b'k' ∷ []) ∷ []

a-IsMember : IsMember (b'a' ∷ [], b'"' ∷ b'b' ∷ b'"' ∷ b':' ∷ [])
a-IsMember = record {
  nonempty = omega arith;
  no_nul = ground arith;
  key_fits = omega arith;
  value_fits = omega arith;
}

b-IsMember : IsMember (b'b' ∷ [], b'o' ∷ b'k' ∷ [])
b-IsMember = record {
  nonempty = omega arith;
  no_nul = ground arith;
  key_fits = omega arith;
  value_fits = omega arith;
}

json_string_value_lem_example :
    Answers (lookup (b'b' ∷ []) pairs) (json_string_value always (object pairs) (b'b' ∷ []))
unfolding always
json_string_value_lem_example =
    json_string_value_lem always (λ n. refl) pairs (b'b' ∷ []) (a-IsMember, (b-IsMember, tt))
