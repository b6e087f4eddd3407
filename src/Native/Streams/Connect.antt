-- ===== src/Native/Streams/Connect.antt =====
-- `fx_http_stream_open` does to the table what the specification does to its view.
use mathlib.Core.Path.{fun_ext}
use esp32_fx.Native.Sink.Write
use esp32_fx.Native.Sink.{ByteSink, received}
use esp32_fx.Native.Streams.Opening.{
  memory-owned, memory-lent, write_back_owned, write_back_lent, open_sink_lem,
}
use esp32_fx.Native.Streams.Spec
use esp32_fx.Native.Streams.Valid.{IsValidHost, first_free_lem, any_used_lem}
use esp32_fx.Native.Streams.View.{view, view_slot}
use esp32_fx.Native.Streams.{
  StreamSlot, cleared, Host, max_streams, Requester, first_free, any_used, open_sink, opened_slot,
  install, stream_open,
}
use esp32_fx.Prelude.{
  ℕ, suc, ◌+◌, ◌<◌, ◌≡◌, ◌⊎◌, refl, sym, ap, ◌∙◌, inl, inr, Bool, true, false, Option, none, some,
  List, [], ◌∷◌, length, get_or, set, get_or-set, pos, minus_one, arith, Bool-cases, Option-cases,
  if◌then◌else◌,
}

-- Whether `borrowed_stream_buffer` is set.
abbrev pub is_single : Option (List ℕ) → Bool
is_single none = false
is_single (some b) = true

abbrev pub answer_of : Option ℕ × ByteSink → Option (ℕ × List ℕ)
answer_of (none, s) = none
answer_of (some status, s) = some (status, received s)

-- The status and the response that the request brings, if it is made and succeeds.
abbrev pub answer : Requester → Host → Option (ℕ × List ℕ)
answer r h = elim (open_sink h h.borrowed_stream_buffer) [
  | none ↦ none
  | some s ↦ answer_of (r.perform s)
]

abbrev Sees : Option (List ℕ) → List StreamSlot → ℕ → Spec.Streams → Type 0
Sees buffer ss k m = (j : ℕ) → m (k + j) ≡ view_slot buffer (get_or ss j cleared)

module _ (buffer : Option (List ℕ)) where
  Sees-tail :
      (s : StreamSlot) (ss : List StreamSlot) (k : ℕ) (m : Spec.Streams)
      → Sees buffer (s ∷ ss) k m
      → Sees buffer ss (k + 1) m
  Sees-tail s ss k m see j = ap m (omega arith) ∙ see (suc j)

  Sees-head :
      (s : StreamSlot) (ss : List StreamSlot) (k : ℕ) (m : Spec.Streams)
      → Sees buffer (s ∷ ss) k m
      → m k ≡ view_slot buffer s
  Sees-head s ss k m see = ap m (omega arith) ∙ see 0

  first_free-eq-least_closed :
      (ss : List StreamSlot) (k : ℕ) (m : Spec.Streams)
      → Sees buffer ss k m
      → first_free ss k ≡ Spec.least_closed (length ss) k m
  unfolding first_free
  first_free-eq-least_closed [] k m see = refl
  first_free-eq-least_closed (s ∷ ss) k m see = ground (
    arith,
    Sees-head s ss k m see,
    first_free-eq-least_closed ss (k + 1) m (Sees-tail s ss k m see),
  )

  any_used-eq-some_open :
      (ss : List StreamSlot) (k : ℕ) (m : Spec.Streams)
      → Sees buffer ss k m
      → any_used ss ≡ Spec.some_open (length ss) k m
  unfolding any_used
  any_used-eq-some_open [] k m see = refl
  any_used-eq-some_open (s ∷ ss) k m see =
      ground
        (arith, Sees-head s ss k m see, any_used-eq-some_open ss (k + 1) m (Sees-tail s ss k m see))

opened_fields :
    (s : ByteSink) (status : ℕ)
    → ((opened_slot s status).used ≡ true)
      × ((opened_slot s status).status ≡ status)
      × ((opened_slot s status).len ≡ s.len)
      × ((opened_slot s status).cursor ≡ 0)
unfolding opened_slot
opened_fields s status = (refl, refl, refl, refl)

module _ {h : Host} (v : IsValidHost h) where
  -- The new stream's entry, and every other as it was.
  view-opened_heap :
      (slot status : ℕ) (s : ByteSink)
      → slot < max_streams
      → s.owned ≡ true
      → view (record h { streams = set h.streams slot (opened_slot s status) })
        ≡ Spec.assign (view h) slot (some (status, received s))
  view-opened_heap slot status s lt own = fun_ext λ j. ground (
    arith,
    v.four,
    memory-owned h.borrowed_stream_buffer s status own,
    get_or-set h.streams slot j (opened_slot s status) cleared,
    opened_fields s status,
  )

  -- The same with the one buffer, when no slot was used.
  view-opened_lent :
      (slot status : ℕ) (s : ByteSink)
      → slot < max_streams
      → s.owned ≡ false
      → any_used h.streams ≡ false
      → view (record h {
        streams = set h.streams slot (opened_slot s status);
        borrowed_stream_buffer = some s.bytes;
      })
        ≡ Spec.assign (view h) slot (some (status, received s))
  view-opened_lent slot status s lt own idle = fun_ext λ j. ground (
    arith,
    v.four,
    any_used_lem h.streams j idle,
    memory-lent s status own,
    get_or-set h.streams slot j (opened_slot s status) cleared,
    opened_fields s status,
  )

  -- A failed request changes no stream, though it may have written to the one buffer.
  view-written :
      (s : ByteSink)
      → any_used h.streams ≡ false
      → view (record h { borrowed_stream_buffer = some s.bytes }) ≡ view h
  view-written s idle = fun_ext λ j. ground (arith, any_used_lem h.streams j idle)

  install_refines :
      (r : Requester) (slot : ℕ) (s : ByteSink)
      → slot < max_streams
      → Write.IsValid s
      → (h.borrowed_stream_buffer ≡ none) × (s.owned ≡ true)
        ⊎ (any_used h.streams ≡ false)
          × (s.owned ≡ false)
          × (s.cap ≡ h.borrowed_stream_buffer_bytes)
      → let (result, h') = install slot (r.perform s) h in
        (result, view h') ≡ Spec.accepted slot (answer_of (r.perform s)) (view h)
  unfolding install
  install_refines r slot s lt vs (inl (none_e, own)) =
      let own' = r.keeps_owned s vs ∙ own in
      elim (Option-cases (r.perform s).0) [
        | inl e ↦ rw (e, install, answer_of, write_back_owned (r.perform s).1 h own')
        | inr (status, e) ↦
            rw (e, install, answer_of, write_back_owned (r.perform s).1 h own')
              (λ k. (pos (slot + 1), view-opened_heap slot status (r.perform s).1 lt own' k))
      ]
  install_refines r slot s lt vs (inr (idle, own, cap_e)) =
      let own' = r.keeps_owned s vs ∙ own in
      elim (Option-cases (r.perform s).0) [
        | inl e ↦
            rw (e, install, answer_of, write_back_lent (r.perform s).1 h own')
              (λ k. (minus_one, view-written (r.perform s).1 idle k))
        | inr (status, e) ↦
            rw (e, install, answer_of, write_back_lent (r.perform s).1 h own')
              (λ k. (pos (slot + 1), view-opened_lent slot status (r.perform s).1 lt own' idle k))
      ]

  -- An open is refused exactly when one buffer serves all streams and one is open.
  pub refused-eq-open_sink :
      (buffer : Option (List ℕ))
      → ((open_sink h buffer ≡ none)
          × ((if is_single buffer then any_used h.streams else false) ≡ true))
        ⊎ ((s : ByteSink) × (open_sink h buffer ≡ some s)
            × ((if is_single buffer then any_used h.streams else false) ≡ false))
  unfolding open_sink
  refused-eq-open_sink none = inr (_, refl, refl)
  refused-eq-open_sink (some b) = elim (Bool-cases (any_used h.streams)) [
    | inl u ↦ rw u (inl (refl, refl))
    | inr u ↦ rw u (inr (_, refl, refl))
  ]

  connect_at :
      (r : Requester) (slot : ℕ)
      → first_free h.streams 0 ≡ some slot
      → let (result, h') = stream_open r h in
        (result, view h') ≡ (
          if (if is_single h.borrowed_stream_buffer then any_used h.streams else false)
          then (minus_one, view h)
          else Spec.accepted slot (answer r h) (view h))
  unfolding stream_open
  connect_at r slot e = elim (refused-eq-open_sink h.borrowed_stream_buffer) [
    | inl (f, u) ↦ rw (e, stream_open) (rw (f, u))
    | inr (s, f, u) ↦
        let (j, sum, lt, _) = first_free_lem h.streams 0 e in
        let (vs, kind) = open_sink_lem v h.borrowed_stream_buffer s refl f in
        rw (e, stream_open)
          (rw (f, u, answer) (install_refines r slot s (omega (arith, v.four)) vs kind))
  ]

  Sees-view : Sees h.borrowed_stream_buffer h.streams 0 (view h)
  Sees-view j = ap (view h) (omega arith)

  least_eq : first_free h.streams 0 ≡ Spec.least_closed max_streams 0 (view h)
  least_eq =
      first_free-eq-least_closed h.borrowed_stream_buffer h.streams 0 (view h) Sees-view
      ∙ ap (λ n. Spec.least_closed n 0 (view h)) v.four

  pub open_eq : any_used h.streams ≡ Spec.some_open max_streams 0 (view h)
  open_eq =
      any_used-eq-some_open h.borrowed_stream_buffer h.streams 0 (view h) Sees-view
      ∙ ap (λ n. Spec.some_open n 0 (view h)) v.four

  -- On a valid table, a call of `fx_http_stream_open` returns what the specification returns: the
  -- least closed handle, with the status and the whole response behind it, if a slot is free, the
  -- borrowed buffer (if there is one) is not taken, and the request succeeds; and -1 otherwise.
  -- Other streams keep what they still have to deliver.
  pub stream_open_refines :
      (r : Requester)
      → let (result, h') = stream_open r h in
        (result, view h') ≡ Spec.connect (is_single h.borrowed_stream_buffer) (answer r h) (view h)
  stream_open_refines r = elim (Option-cases (first_free h.streams 0)) [
    | inl e ↦ rw (sym least_eq ∙ e, Spec.connect) (unfold stream_open in rw (e, stream_open))
    | inr (slot, e) ↦ rw (sym least_eq ∙ e, Spec.connect) (rw (← open_eq) (connect_at r slot e))
  ]
