-- ===== src/Einkctl/Sanitize/Laws.antt =====
-- `sanitize_text`: the rounds of its loop, and the size of its output.
use esp32_fx.Einkctl.Sanitize.{
  Escape, escape_none, escape_start, escape_csi, escape_osc, skip_continuations, plain_byte,
  sanitize_byte, sanitize_rest, sanitize_text,
}
use esp32_fx.Prelude.{
  ℕ, zero, suc, ◌+◌, ◌*◌, ◌%◌, ◌-◌, ◌≤◌, ◌<◌, ◌≡◌, refl, List, [], ◌∷◌, ◌++◌, length, length-append,
  length-replicate, arith, ap,
}

skip_continuations_shorter : (input : List ℕ) → length (skip_continuations input) ≤ length input
unfolding skip_continuations
skip_continuations_shorter [] = omega arith
skip_continuations_shorter (byte ∷ rest) = ground (arith, skip_continuations_shorter rest)

-- A round adds at most four bytes for every byte that it takes.
plain_byte_small :
    (byte : ℕ) (rest : List ℕ) (destination : ℕ)
    → let r = plain_byte byte rest destination in
      (length r.rest ≤ length rest) × (length r.added + 4 * length r.rest ≤ 4 * suc (length rest))
unfolding plain_byte
plain_byte_small byte rest destination = ground (
  arith,
  skip_continuations_shorter rest,
  length-replicate (4 - destination % 4) (let c : ℕ = b' ' in c),
)

sanitize_byte_small :
    (escape : Escape) (byte : ℕ) (rest : List ℕ) (destination : ℕ)
    → let r = sanitize_byte escape byte rest destination in
      (length r.rest ≤ length rest) × (length r.added + 4 * length r.rest ≤ 4 * suc (length rest))
unfolding sanitize_byte
sanitize_byte_small escape_none byte rest destination = plain_byte_small byte rest destination
sanitize_byte_small escape_start byte rest destination = omega arith
sanitize_byte_small escape_csi byte rest destination = omega arith
sanitize_byte_small escape_osc byte [] destination = ground arith
sanitize_byte_small escape_osc byte (next ∷ rest) destination = ground arith

sanitize_rest_bound :
    (fuel : ℕ) (escape : Escape) (input : List ℕ) (destination : ℕ)
    → length (sanitize_rest fuel escape input destination) ≤ 4 * length input
unfolding sanitize_rest
sanitize_rest_bound zero escape input destination = omega arith
sanitize_rest_bound (suc fuel) escape [] destination = omega arith
sanitize_rest_bound (suc fuel) escape (byte ∷ rest) destination =
    let r = sanitize_byte escape byte rest destination in
    omega (
      arith,
      length-append r.added (sanitize_rest fuel r.escape r.rest (destination + length r.added)),
      sanitize_rest_bound fuel r.escape r.rest (destination + length r.added),
      sanitize_byte_small escape byte rest destination,
    )

-- The output of `sanitize_text` has at most four bytes for each byte of its input, so with its
-- final NUL it fits the `4 * input_length + 1` bytes that `render_text` allocates for it.
pub length-sanitize_text : (input : List ℕ) → length (sanitize_text input) < 4 * length input + 1
unfolding sanitize_text
length-sanitize_text input = omega (arith, sanitize_rest_bound (length input) escape_none input 0)

-- Any two numbers of rounds that are not below the length of the input give the same output: the
-- bound of `sanitize_text` never ends its loop.
pub sanitize_rest_fuel :
    (m n : ℕ) (escape : Escape) (input : List ℕ) (destination : ℕ)
    → length input ≤ m
    → length input ≤ n
    → sanitize_rest m escape input destination ≡ sanitize_rest n escape input destination
unfolding sanitize_rest
sanitize_rest_fuel zero zero escape input destination hm hn = refl
sanitize_rest_fuel zero (suc n) escape [] destination hm hn = refl
sanitize_rest_fuel (suc m) zero escape [] destination hm hn = refl
sanitize_rest_fuel (suc m) (suc n) escape [] destination hm hn = refl
sanitize_rest_fuel zero (suc n) escape (byte ∷ rest) destination hm hn = absurd (omega arith)
sanitize_rest_fuel (suc m) zero escape (byte ∷ rest) destination hm hn = absurd (omega arith)
sanitize_rest_fuel (suc m) (suc n) escape (byte ∷ rest) destination hm hn =
    let r = sanitize_byte escape byte rest destination in
    let small = sanitize_byte_small escape byte rest destination in
    ap (λ later. r.added ++ later)
      (sanitize_rest_fuel m n r.escape r.rest (destination + length r.added) (omega arith)
        (omega arith))
