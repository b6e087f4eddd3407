-- ===== src/Native/Streams/View.antt =====
-- The streams as a client sees them: for each open handle a status and the bytes still to come.
use esp32_fx.Native.Streams.{
  StreamSlot, cleared, Host, max_streams, slot_at, memory, chunk_len, chunk, next_at,
}
use esp32_fx.Native.Streams.Valid.{IsValidSlot, IsValidHost}
use esp32_fx.Prelude.{
  ℕ, ◌+◌, ◌-◌, ◌<◌, ◌≡◌, refl, inl, inr, add_size, sym, ap, ◌≤◌, ◌∙◌, min, true, Option, none, some,
  List, length, take, drop, take-drop-take, drop-drop, drop-eq_of_end, length-take, get_or-set, ltb,
  ◌==◌, if◌then◌else◌, arith, Bool-cases,
}

-- The part of the response that has not been delivered.
abbrev pub unread : Option (List ℕ) → StreamSlot → List ℕ
unread buffer s = drop s.cursor (take s.len (memory buffer s.bytes))

abbrev pub view_slot : Option (List ℕ) → StreamSlot → Option (ℕ × List ℕ)
view_slot buffer s = if s.used then some (s.status, unread buffer s) else none

abbrev pub view : Host → ℕ → Option (ℕ × List ℕ)
view h i = view_slot h.borrowed_stream_buffer (slot_at h i)

-- The view with one entry replaced.
abbrev pub view_set : Host → ℕ → Option (ℕ × List ℕ) → ℕ → Option (ℕ × List ℕ)
view_set h i entry j = if i == j then entry else view h j

module _ {buffer : Option (List ℕ)} {s : StreamSlot} (v : IsValidSlot buffer s) (limit : ℕ) where
  chunk_len-eq-min : chunk_len s limit ≡ min limit (s.len - s.cursor)
  unfolding chunk_len
  chunk_len-eq-min = ground (arith, v)

  chunk-eq-take : chunk buffer s limit ≡ take limit (unread buffer s)
  unfolding chunk
  chunk-eq-take = sym (take-drop-take limit s.cursor s.len _ _ chunk_len-eq-min)

  unread-advance :
      drop (s.cursor + chunk_len s limit) (take s.len (memory buffer s.bytes))
      ≡ drop limit (unread buffer s)
  unread-advance =
      let whole : List ℕ = take s.len (memory buffer s.bytes) in
      let short : length whole ≤ s.len = omega (arith, length-take s.len (memory buffer s.bytes)) in
      let later = drop-drop limit s.cursor (s.cursor + limit) whole refl in
      elim (Bool-cases (ltb (s.len - s.cursor) limit)) [
        | inl past ↦
            drop-eq_of_end _ _ whole (ground (arith, v, short, chunk_len-eq-min))
              (ground (arith, v, short))
            ∙ sym later
        | inr here ↦ ap (λ k. drop k whole) (ground (arith, chunk_len-eq-min)) ∙ sym later
      ]

-- What `next` does at a slot in use.
pub record Delivers (h : Host) (i limit status : ℕ) (rest : List ℕ) (out : Option (List ℕ) × Host)
    : Type 0 where
  pub delivered : out.0 ≡ some (take limit rest)
  pub remaining : (j : ℕ) → view out.1 j ≡ view_set h i (some (status, drop limit rest)) j

module _ {h : Host} (v : IsValidHost h) (i limit : ℕ) (lt : i < max_streams) where
  next_cursor :
      add_size (slot_at h i).cursor (chunk_len (slot_at h i) limit)
      ≡ (slot_at h i).cursor + chunk_len (slot_at h i) limit
  next_cursor = ground (arith, v.slots i, chunk_len-eq-min (v.slots i) limit)

  pub next_at-Delivers :
      (status : ℕ) (rest : List ℕ)
      → view h i ≡ some (status, rest)
      → Delivers h i limit status rest (next_at i limit h)
  unfolding next_at
  next_at-Delivers status rest e =
      let u : (slot_at h i).used ≡ true = ground (arith, e) in
      let st : (slot_at h i).status ≡ status = ground (arith, e, u) in
      let r : unread h.borrowed_stream_buffer (slot_at h i) ≡ rest = ground (arith, e, u) in
      record {
        delivered = ground (arith, u, r, chunk-eq-take (v.slots i) limit);
        remaining = λ j. ground (
          arith,
          u,
          st,
          r,
          v.four,
          next_cursor,
          unread-advance (v.slots i) limit,
          get_or-set h.streams i j
              (record (slot_at h i) {
                cursor = add_size (slot_at h i).cursor (chunk_len (slot_at h i) limit);
              })
              cleared,
        );
      }

  pub next_at_closed : view h i ≡ none → next_at i limit h ≡ (none, h)
  unfolding next_at
  next_at_closed e = ground (arith, e)
