-- ===== src/Native/Streams/Valid.antt =====
-- The invariant of the stream table, and that each import keeps it.
use esp32_fx.Native.Streams.{
  lent, StreamSlot, cleared, Host, max_streams, first_free, any_used, slot_index, slot_at, memory,
  no_streams, chunk_len, stream_next, stream_close, next_at, close_at,
}
use esp32_fx.Prelude.{
  ℕ, zero, suc, ◌+◌, ◌≤◌, ◌<◌, ◌≡◌, ◌≢◌, refl, inl, inr, true, false, Option, none, some, List, [],
  ◌∷◌, length, get_or, set, get_or-set, length-set, word, ℤ, pos, negsuc, arith, add_size,
  Bool-cases, Option-cases,
}

-- A slot in use holds its response, and has delivered the part up to its cursor; a free one is
-- zero.
pub record IsValidSlot (buffer : Option (List ℕ)) (s : StreamSlot) : Type 0 where
  pub cursor_in : s.cursor ≤ s.len
  pub len_in : s.len ≤ length (memory buffer s.bytes)
  pub len_word : s.len < word
  pub status_word : s.status < 65536
  pub idle : s.used ≡ false → s ≡ cleared

-- With a borrowed buffer at most one slot is in use; without one no slot points to it.
pub record IsValidHost (h : Host) : Type 0 where
  pub four : length h.streams ≡ max_streams
  pub slots : (i : ℕ) → IsValidSlot h.borrowed_stream_buffer (slot_at h i)
  pub exclusive :
      (b : List ℕ)
      → h.borrowed_stream_buffer ≡ some b
      → (i j : ℕ) → (slot_at h i).used ≡ true
      → (slot_at h j).used ≡ true
      → i ≡ j
  pub not_lent : h.borrowed_stream_buffer ≡ none → (i : ℕ) → (slot_at h i).bytes ≢ lent
  pub buffer_fits :
      (b : List ℕ) → h.borrowed_stream_buffer ≡ some b → h.borrowed_stream_buffer_bytes ≤ length b
  pub buffer_word : h.borrowed_stream_buffer_bytes < word

pub cleared-IsValidSlot : (buffer : Option (List ℕ)) → IsValidSlot buffer cleared
cleared-IsValidSlot buffer = record {
  cursor_in = omega arith;
  len_in = omega arith;
  len_word = omega arith;
  status_word = omega arith;
  idle = λ _. refl;
}

pub slot_index-lt : (handle : ℤ) {i : ℕ} → slot_index handle ≡ some i → i < max_streams
unfolding slot_index
slot_index-lt (negsuc n) e = cc
slot_index-lt (pos zero) e = cc
slot_index-lt (pos (suc i)) e = ground arith

pub first_free_lem :
    (ss : List StreamSlot) (k : ℕ) {i : ℕ}
    → first_free ss k ≡ some i
    → (j : ℕ) × (k + j ≡ i) × (j < length ss) × ((get_or ss j cleared).used ≡ false)
unfolding first_free
first_free_lem [] k e = cc
first_free_lem (s ∷ ss) k {i} e = elim (Bool-cases s.used) [
  | inl busy ↦
      let (j, sum, lt, free) = first_free_lem ss (k + 1) {i = i} (ground (arith, e)) in
      (suc j, omega arith, omega arith, free)
  | inr idle ↦ (0, ground (arith, e), omega arith, idle)
]

pub any_used_lem :
    (ss : List StreamSlot) (i : ℕ) → any_used ss ≡ false → (get_or ss i cleared).used ≡ false
unfolding any_used
any_used_lem [] i e = refl
any_used_lem (s ∷ ss) zero e = ground arith
any_used_lem (s ∷ ss) (suc i) e = any_used_lem ss i (ground arith)

module _ {h : Host} (v : IsValidHost h) where
  -- A table that differs at one slot, which points where it did and is in use as it was.
  update-IsValidHost :
      (i : ℕ) (s : StreamSlot)
      → IsValidSlot h.borrowed_stream_buffer s
      → s.bytes ≡ (slot_at h i).bytes
      → s.used ≡ (slot_at h i).used
      → IsValidHost (record h { streams = set h.streams i s })
  update-IsValidHost i s vs b u = record {
    four = ground (arith, v.four, length-set h.streams i s);
    slots = λ j. ground (arith, v.slots j, get_or-set h.streams i j s cleared);
    exclusive = λ buf e j k. ground (
      arith,
      v.exclusive buf e j k,
      get_or-set h.streams i j s cleared,
      get_or-set h.streams i k s cleared,
    );
    not_lent = λ e j. ground (arith, v.not_lent e j, get_or-set h.streams i j s cleared);
    buffer_fits = v.buffer_fits;
    buffer_word = v.buffer_word;
  }

  next_slot-IsValid :
      (i limit : ℕ)
      → (slot_at h i).used ≡ true
      → IsValidSlot h.borrowed_stream_buffer (record (slot_at h i) {
        cursor = add_size (slot_at h i).cursor (chunk_len (slot_at h i) limit);
      })
  unfolding chunk_len
  next_slot-IsValid i limit u = ground (arith, v.slots i)

  pub next_at-IsValid : (i limit : ℕ) → IsValidHost (next_at i limit h).1
  unfolding next_at
  next_at-IsValid i limit = elim (Bool-cases (slot_at h i).used) [
    | inl u ↦ rw u (
        rw u at (
          update-IsValidHost i
            (record (slot_at h i) {
              cursor = add_size (slot_at h i).cursor (chunk_len (slot_at h i) limit);
            })
            (next_slot-IsValid i limit u) refl refl))
    | inr u ↦ rw u v
  ]

  pub close_at-IsValid : (i : ℕ) → IsValidHost (close_at i h)
  unfolding close_at
  close_at-IsValid i = record {
    four = ground (arith, v.four, length-set h.streams i cleared);
    slots = λ j. ground (
      arith,
      v.slots j,
      get_or-set h.streams i j cleared cleared,
      cleared-IsValidSlot h.borrowed_stream_buffer,
    );
    exclusive = λ b e j k. ground (
      arith,
      v.exclusive b e j k,
      get_or-set h.streams i j cleared cleared,
      get_or-set h.streams i k cleared cleared,
    );
    not_lent = λ e j. ground (arith, v.not_lent e j, get_or-set h.streams i j cleared cleared);
    buffer_fits = v.buffer_fits;
    buffer_word = v.buffer_word;
  }

  -- `fx_http_stream_next` keeps the invariant, whatever the handle and the capacity.
  pub stream_next-IsValid : (handle : ℤ) (limit : ℕ) → IsValidHost (stream_next handle limit h).1
  unfolding stream_next
  stream_next-IsValid handle limit = elim (Option-cases (slot_index handle)) [
    | inl e ↦ rw (e, stream_next) v
    | inr (i, e) ↦ rw (e, stream_next) (next_at-IsValid i limit)
  ]

  -- `fx_http_stream_close` keeps the invariant.
  pub stream_close-IsValid : (handle : ℤ) → IsValidHost (stream_close handle h)
  unfolding stream_close
  stream_close-IsValid handle = elim (Option-cases (slot_index handle)) [
    | inl e ↦ rw (e, stream_close) v
    | inr (i, e) ↦ rw (e, stream_close) (close_at-IsValid i)
  ]

no_streams-cleared : (i : ℕ) → get_or no_streams i cleared ≡ cleared
no_streams-cleared zero = refl
no_streams-cleared (suc zero) = refl
no_streams-cleared (suc (suc zero)) = refl
no_streams-cleared (suc (suc (suc zero))) = refl
no_streams-cleared (suc (suc (suc (suc i)))) = refl

abbrev pub Fits : Option (List ℕ) → ℕ → Type 0
Fits none n = Unit {0}
Fits (some b) n = n ≤ length b

-- The table as the launcher sets it up satisfies the invariant, with no borrowed buffer or with one
-- of at least the stated size.
pub initial-IsValid :
    (buffer : Option (List ℕ)) (n : ℕ)
    → Fits buffer n
    → n < word
    → IsValidHost (record {
      streams = no_streams;
      borrowed_stream_buffer = buffer;
      borrowed_stream_buffer_bytes = n;
    })
initial-IsValid buffer n fits small = record {
  four = refl;
  slots = λ i. rw (no_streams-cleared i) (cleared-IsValidSlot buffer);
  exclusive = λ b e i j u w. absurd (cc (no_streams-cleared i, u));
  not_lent = λ e i l. cc (no_streams-cleared i, l);
  buffer_fits = λ b e. ground (arith, fits);
  buffer_word = small;
}
