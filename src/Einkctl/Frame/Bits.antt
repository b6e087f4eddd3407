-- ===== src/Einkctl/Frame/Bits.antt =====
-- Bits of a byte: a write of one changes no other.
use esp32_fx.Einkctl.Frame.{is_set, write_bit}
use esp32_fx.Prelude.{ℕ, zero, suc, ◌<◌, ◌≡◌, Bool, true, false, not, ◌==◌, if◌then◌else◌, arith}

-- What holds of every number below 8.
below_eight {ℓ} :
    (P : ℕ → Type ℓ) → P 0 × P 1 × P 2 × P 3 × P 4 × P 5 × P 6 × P 7 → (k : ℕ) → k < 8 → P k
below_eight P (p0, p1, p2, p3, p4, p5, p6, p7) zero h = p0
below_eight P (p0, p1, p2, p3, p4, p5, p6, p7) (suc zero) h = p1
below_eight P (p0, p1, p2, p3, p4, p5, p6, p7) (suc (suc zero)) h = p2
below_eight P (p0, p1, p2, p3, p4, p5, p6, p7) (suc (suc (suc zero))) h = p3
below_eight P (p0, p1, p2, p3, p4, p5, p6, p7) (suc (suc (suc (suc zero)))) h = p4
below_eight P (p0, p1, p2, p3, p4, p5, p6, p7) (suc (suc (suc (suc (suc zero))))) h = p5
below_eight P (p0, p1, p2, p3, p4, p5, p6, p7) (suc (suc (suc (suc (suc (suc zero)))))) h = p6
below_eight P (p0, p1, p2, p3, p4, p5, p6, p7) (suc (suc (suc (suc (suc (suc (suc zero))))))) h = p7
below_eight P ps (suc (suc (suc (suc (suc (suc (suc (suc k)))))))) h = absurd (omega arith)

abbrev Reads : Bool → ℕ → ℕ → ℕ → Type 0
Reads black k byte j =
    is_set j (write_bit black k byte) ≡ (if j == k then not black else is_set j byte)

abbrev ReadsAll : Bool → ℕ → ℕ → Type 0
ReadsAll black byte k = let R = Reads black k byte in R 0 × R 1 × R 2 × R 3 × R 4 × R 5 × R 6 × R 7

write_bit-ReadsAll : (black : Bool) (byte k : ℕ) → k < 8 → ReadsAll black byte k
unfolding write_bit
write_bit-ReadsAll true byte = below_eight (ReadsAll true byte) (
  ground arith,
  ground arith,
  ground arith,
  ground arith,
  ground arith,
  ground arith,
  ground arith,
  ground arith,
)
write_bit-ReadsAll false byte = below_eight (ReadsAll false byte) (
  ground arith,
  ground arith,
  ground arith,
  ground arith,
  ground arith,
  ground arith,
  ground arith,
  ground arith,
)

-- A bit written with `black` reads back as not black, and the other bits of the byte as before.
pub is_set-write_bit :
    (black : Bool) (byte : ℕ) {k j : ℕ}
    → k < 8
    → j < 8
    → is_set j (write_bit black k byte) ≡ (if j == k then not black else is_set j byte)
is_set-write_bit black byte {k = k} {j = j} hk hj =
    below_eight (Reads black k byte) (write_bit-ReadsAll black byte k hk) j hj
