-- ===== src/Eink/Buffer/Laws.antt =====
-- The invariant of a text buffer, and what an append does.
use esp32_fx.Eink.Buffer.{
  TextBuffer, empty_buffer, max_response_bytes, double_until, grown_capacity, buffer_append,
}
use esp32_fx.Prelude.{
  ℕ, zero, suc, ◌+◌, ◌*◌, ◌≤◌, ◌<◌, ◌≡◌, ◌⊎◌, inl, inr, Bool, true, none, some, List, ◌++◌, length,
  length-append, ltb, ◌==◌, arith, Bool-cases, mul_size, add_size,
}

-- The text fits into the limit, and with its final NUL into the block.
pub record IsValid (b : TextBuffer) : Type 0 where
  pub limit : length b.bytes ≤ max_response_bytes
  pub terminated :
      (b.capacity ≡ 0) × (length b.bytes ≡ 0) ⊎ (length b.bytes < b.capacity) × (1024 ≤ b.capacity)
  pub bounded : b.capacity ≤ 2 * max_response_bytes

pub empty_buffer-IsValid : IsValid empty_buffer
empty_buffer-IsValid = record {
  limit = omega arith;
  terminated = omega arith;
  bounded = omega arith;
}

-- The doubling stops at a capacity that is large enough, and not beyond twice the limit.
double_until_lem :
    (fuel capacity needed : ℕ)
    → 1024 ≤ capacity
    → needed ≤ max_response_bytes + 1
    → capacity ≤ 2 * max_response_bytes
    → needed ≤ capacity + 1024 * fuel
    → let c = double_until fuel capacity needed in
      (needed ≤ c) × (1024 ≤ c) × (c ≤ 2 * max_response_bytes)
unfolding double_until
double_until_lem zero capacity needed p n c f = omega arith
double_until_lem (suc fuel) capacity needed p n c f =
    ground (arith, double_until_lem fuel (mul_size capacity 2) needed)

grown_capacity_lem :
    (capacity needed : ℕ)
    → (capacity ≡ 0) ⊎ (1024 ≤ capacity)
    → needed ≤ max_response_bytes + 1
    → capacity ≤ 2 * max_response_bytes
    → let c = grown_capacity capacity needed in
      (needed ≤ c) × (1024 ≤ c) × (c ≤ 2 * max_response_bytes)
unfolding grown_capacity
grown_capacity_lem capacity needed k n c = elim (Bool-cases (capacity == 0)) [
  | inl z ↦ rw z (double_until_lem 32 1024 needed (omega arith) n (omega arith) (omega arith))
  | inr nz ↦
      rw nz (double_until_lem 32 capacity needed (ground (arith, nz)) n c (ground (arith, nz)))
]

module _ (has_memory : ℕ → Bool) where
  -- An append to a valid buffer that succeeds adds its text, and keeps the buffer within its limit
  -- and its block.
  pub buffer_append_lem :
      (text : List ℕ) (b c : TextBuffer)
      → IsValid b
      → buffer_append has_memory text b ≡ some c
      → (c.bytes ≡ b.bytes ++ text) × IsValid c
  unfolding buffer_append
  buffer_append_lem text b c v e = ground (
    arith,
    v,
    length-append b.bytes text,
    grown_capacity_lem b.capacity (add_size (add_size (length b.bytes) (length text)) 1),
  )

  -- While memory lasts, text that keeps a valid buffer within the limit is appended.
  pub buffer_append_total :
      (text : List ℕ) (b : TextBuffer)
      → IsValid b
      → ((n : ℕ) → has_memory n ≡ true)
      → length b.bytes + length text ≤ max_response_bytes
      → (c : TextBuffer) × (buffer_append has_memory text b ≡ some c)
  unfolding buffer_append
  buffer_append_total text b v memory fits =
      let needed = add_size (add_size (length b.bytes) (length text)) 1 in
      let capacity = grown_capacity b.capacity needed in
      elim (Bool-cases (ltb b.capacity needed)) [
        | inl grows ↦ (
          record { bytes = b.bytes ++ text; capacity = capacity },
          ground (arith, v, memory capacity),
        )
        | inr room ↦ (record b { bytes = b.bytes ++ text }, ground (arith, v))
      ]

  -- Text that would pass the limit is refused.
  pub buffer_append_refuses :
      (text : List ℕ) (b : TextBuffer)
      → IsValid b
      → max_response_bytes < length b.bytes + length text
      → buffer_append has_memory text b ≡ none
  unfolding buffer_append
  buffer_append_refuses text b v over = ground (arith, v)
