-- ===== src/Native/Streams/Opening.antt =====
-- `fx_http_stream_open`: it keeps the invariant, and gives out the least closed handle.
use esp32_fx.Native.Sink.Write
use esp32_fx.Native.Sink.{ByteSink}
use esp32_fx.Native.Streams.{
  cleared, Host, Requester, first_free, any_used, open_sink, write_back, opened_slot, install,
  stream_open, memory,
}
use esp32_fx.Native.Streams.Valid.{IsValidSlot, IsValidHost, cleared-IsValidSlot, any_used_lem}
use esp32_fx.Prelude.{
  ℕ, ◌≤◌, ◌<◌, ◌≡◌, ◌⊎◌, refl, ap, ◌∙◌, inl, inr, true, false, Option, none, some, List, length,
  set, get_or-set, length-set, arith, Option-cases,
}

-- The slot that an open fills is valid, if its pointer leads to the sink's memory.
opened-IsValidSlot :
    (buffer : Option (List ℕ)) (s : ByteSink) (status : ℕ)
    → Write.IsValid s
    → status < 65536
    → memory buffer (opened_slot s status).bytes ≡ s.bytes
    → IsValidSlot buffer (opened_slot s status)
unfolding opened_slot
opened-IsValidSlot buffer s status v small e = record {
  cursor_in = omega arith;
  len_in = omega (arith, ap (λ (m : List ℕ). length m) e, Write.len-le-length v);
  len_word = omega (arith, v.within, v.cap_word);
  status_word = small;
  idle = λ p. cc;
}

pub memory-owned :
    (buffer : Option (List ℕ)) (s : ByteSink) (status : ℕ)
    → s.owned ≡ true
    → memory buffer (opened_slot s status).bytes ≡ s.bytes
unfolding memory opened_slot
memory-owned buffer s status own = ground arith

pub memory-lent :
    (s : ByteSink) (status : ℕ)
    → s.owned ≡ false
    → memory (some s.bytes) (opened_slot s status).bytes ≡ s.bytes
unfolding memory opened_slot
memory-lent s status own = ground arith

pub write_back_owned : (s : ByteSink) (h : Host) → s.owned ≡ true → write_back s h ≡ h
unfolding write_back
write_back_owned s h own = rw own

pub write_back_lent :
    (s : ByteSink) (h : Host)
    → s.owned ≡ false
    → write_back s h ≡ record h { borrowed_stream_buffer = some s.bytes }
unfolding write_back
write_back_lent s h own = ground (arith, own)

module _ {h : Host} (v : IsValidHost h) where
  -- The sinks that an open hands to the request: a heap sink, or the one buffer when no slot is used.
  pub open_sink_lem :
      (buffer : Option (List ℕ)) (s : ByteSink)
      → h.borrowed_stream_buffer ≡ buffer
      → open_sink h buffer ≡ some s
      → Write.IsValid s
        × ((h.borrowed_stream_buffer ≡ none) × (s.owned ≡ true)
            ⊎ (any_used h.streams ≡ false)
              × (s.owned ≡ false)
              × (s.cap ≡ h.borrowed_stream_buffer_bytes))
  unfolding open_sink
  open_sink_lem none s e p = ground arith
  open_sink_lem (some b) s e p = ground (arith, v.buffer_fits b e, v.buffer_word)

  module _ (slot status : ℕ) (small : status < 65536) (s : ByteSink) (vs : Write.IsValid s) where
    opened_heap :
        h.borrowed_stream_buffer ≡ none
        → s.owned ≡ true
        → IsValidHost (record h { streams = set h.streams slot (opened_slot s status) })
    opened_heap none_e own = record {
      four = ground (arith, v.four, length-set h.streams slot (opened_slot s status));
      slots = λ j. ground (
        arith,
        v.slots j,
        opened-IsValidSlot h.borrowed_stream_buffer s status vs small
            (memory-owned h.borrowed_stream_buffer s status own),
        get_or-set h.streams slot j (opened_slot s status) cleared,
      );
      exclusive = λ b e. absurd (cc);
      not_lent = λ e j.
          unfold opened_slot in
          ground (
            arith,
            own,
            v.not_lent e j,
            get_or-set h.streams slot j (opened_slot s status) cleared,
          );
      buffer_fits = v.buffer_fits;
      buffer_word = v.buffer_word;
    }

    -- With the one buffer taken by the new stream, every other slot is free.
    opened_lent :
        any_used h.streams ≡ false
        → s.owned ≡ false
        → h.borrowed_stream_buffer_bytes ≤ length s.bytes
        → IsValidHost (record h {
          streams = set h.streams slot (opened_slot s status);
          borrowed_stream_buffer = some s.bytes;
        })
    opened_lent idle own room = record {
      four = ground (arith, v.four, length-set h.streams slot (opened_slot s status));
      slots = λ j. ground (
        arith,
        any_used_lem h.streams j idle,
        (v.slots j).idle,
        cleared-IsValidSlot (some s.bytes),
        opened-IsValidSlot (some s.bytes) s status vs small (memory-lent s status own),
        get_or-set h.streams slot j (opened_slot s status) cleared,
      );
      exclusive = λ b e j k. ground (
        arith,
        any_used_lem h.streams j idle,
        any_used_lem h.streams k idle,
        get_or-set h.streams slot j (opened_slot s status) cleared,
        get_or-set h.streams slot k (opened_slot s status) cleared,
      );
      not_lent = λ e. absurd (cc);
      buffer_fits = λ b e. ground (arith, room);
      buffer_word = v.buffer_word;
    }

  -- A request that failed after it wrote to the one buffer.
  written_lent :
      (s : ByteSink)
      → any_used h.streams ≡ false
      → h.borrowed_stream_buffer_bytes ≤ length s.bytes
      → IsValidHost (record h { borrowed_stream_buffer = some s.bytes })
  written_lent s idle room = record {
    four = v.four;
    slots = λ j. ground (
      arith,
      any_used_lem h.streams j idle,
      (v.slots j).idle,
      cleared-IsValidSlot (some s.bytes),
    );
    exclusive = λ b e j k. ground (arith, any_used_lem h.streams j idle);
    not_lent = λ e. absurd (cc);
    buffer_fits = λ b e. ground (arith, room);
    buffer_word = v.buffer_word;
  }

  module _ (r : Requester) (slot : ℕ) where
    install_heap :
        (s : ByteSink)
        → Write.IsValid s
        → h.borrowed_stream_buffer ≡ none
        → s.owned ≡ true
        → IsValidHost (install slot (r.perform s) h).1
    unfolding install
    install_heap s vs none_e own =
        let own' : (r.perform s).1.owned ≡ true = r.keeps_owned s vs ∙ own in
        elim (Option-cases (r.perform s).0) [
          | inl e ↦ rw (e, install, write_back_owned (r.perform s).1 h own') v
          | inr (status, e) ↦
              rw (e, install, write_back_owned (r.perform s).1 h own')
                (opened_heap slot status (r.status_word s status vs e) (r.perform s).1
                  (r.keeps s vs) none_e own')
        ]

    install_lent :
        (s : ByteSink)
        → Write.IsValid s
        → any_used h.streams ≡ false
        → s.owned ≡ false
        → s.cap ≡ h.borrowed_stream_buffer_bytes
        → IsValidHost (install slot (r.perform s) h).1
    unfolding install
    install_lent s vs idle own cap_e =
        let s' : ByteSink = (r.perform s).1 in
        let own' : s'.owned ≡ false = r.keeps_owned s vs ∙ own in
        let room : h.borrowed_stream_buffer_bytes ≤ length s'.bytes =
          ground (arith, own', cap_e, r.keeps_cap s vs, (r.keeps s vs).fits) in
        elim (Option-cases (r.perform s).0) [
          | inl e ↦ rw (e, install, write_back_lent s' h own') (written_lent s' idle room)
          | inr (status, e) ↦
              rw (e, install, write_back_lent s' h own')
                (opened_lent slot status (r.status_word s status vs e) s' (r.keeps s vs) idle own'
                  room)
        ]

  -- `fx_http_stream_open` keeps the invariant of the table, whether the request succeeds or fails.
  pub stream_open-IsValid : (r : Requester) → IsValidHost (stream_open r h).1
  unfolding stream_open
  stream_open-IsValid r = elim (Option-cases (first_free h.streams 0)) [
    | inl e ↦ rw (e, stream_open) v
    | inr (slot, e) ↦
        rw (e, stream_open)
          (elim (Option-cases (open_sink h h.borrowed_stream_buffer)) [
            | inl f ↦ rw f v
            | inr (s, f) ↦
                let (vs, kind) = open_sink_lem h.borrowed_stream_buffer s refl f in
                rw f (elim kind [
                  | inl (none_e, own) ↦ install_heap r slot s vs none_e own
                  | inr (idle, own, cap_e) ↦ install_lent r slot s vs idle own cap_e
                ])
          ])
  ]
