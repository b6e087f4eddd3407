-- ===== src/Native/Streams/Trace.antt =====
-- Whole runs of a guest over the stream table, against the specification.
use esp32_fx.Native.Sink.{ByteSink}
use esp32_fx.Native.Streams.Connect.{
  is_single, answer, answer_of, open_eq, refused-eq-open_sink, stream_open_refines,
}
use esp32_fx.Native.Streams.Opening.{open_sink_lem, stream_open-IsValid}
use esp32_fx.Native.Streams.Refine.{
  stream_next_refines, stream_close_refines, stream_status_refines,
}
use esp32_fx.Native.Streams.Spec
use esp32_fx.Native.Streams.Valid.{
  IsValidHost, Fits, initial-IsValid, stream_next-IsValid, stream_close-IsValid,
}
use esp32_fx.Native.Streams.View.{view}
use esp32_fx.Native.Streams.{
  Host, Requester, max_streams, slot_index, no_streams, stream_open, stream_next, stream_close,
  stream_status, first_free, open_sink, install, write_back, next_at, close_at,
}
use esp32_fx.Prelude.{
  ℕ, ◌<◌, ◌≡◌, refl, subst, sym, ap, ◌∙◌, inl, inr, Bool, true, false, Option, none, some, List, [],
  ◌∷◌, ℤ, arith, Option-cases, word, if◌then◌else◌,
}

-- A call of one of the four imports.
pub data Call : Type 0 where
  open_call : Requester → Call
  next_call : ℤ → ℕ → Call
  close_call : ℤ → Call
  status_call : ℤ → Call

pub data Reply : Type 0 where
  opened : ℤ → Reply
  bytes_read : Option (List ℕ) → Reply
  closed : Reply
  reported : ℤ × Option ℕ → Reply

abbrev pub call : Call → Host → Reply × Host
call (open_call r) h = (opened (stream_open r h).0, (stream_open r h).1)
call (next_call handle limit) h =
    (bytes_read (stream_next handle limit h).0, (stream_next handle limit h).1)
call (close_call handle) h = (closed, stream_close handle h)
call (status_call handle) h = (reported (stream_status handle h), h)

-- The replies to a guest's calls, and the table it leaves.
abbrev pub run : List Call → Host → List Reply × Host
run [] h = ([], h)
run (c ∷ calls) h =
    let (reply, h') = call c h in let (replies, last) = run calls h' in (reply ∷ replies, last)

-- The runs of the specification. An open gets what its request brings into some empty sink; all else
-- is determined.
pub data Runs (single : Bool) : Spec.Streams → List Call → List Reply → Spec.Streams → Type 0 where
  stop : (m : Spec.Streams) → Runs single m [] [] m
  connects :
      {m : Spec.Streams} {calls : List Call} {replies : List Reply} {last : Spec.Streams}
      → (r : Requester) (s : ByteSink) → s.len ≡ 0
      → Runs single (Spec.connect single (answer_of (r.perform s)) m).1 calls replies last
      → Runs single m
          (open_call r ∷ calls)
          (opened (Spec.connect single (answer_of (r.perform s)) m).0 ∷ replies)
          last
  reads :
      {m : Spec.Streams} {calls : List Call} {replies : List Reply} {last : Spec.Streams}
      → (handle : ℤ) (limit : ℕ) → Runs single (Spec.next handle limit m).1 calls replies last
      → Runs single m
          (next_call handle limit ∷ calls)
          (bytes_read (Spec.next handle limit m).0 ∷ replies)
          last
  closes :
      {m : Spec.Streams} {calls : List Call} {replies : List Reply} {last : Spec.Streams}
      → (handle : ℤ) → Runs single (Spec.close handle m) calls replies last
      → Runs single m (close_call handle ∷ calls) (closed ∷ replies) last
  reports :
      {m : Spec.Streams} {calls : List Call} {replies : List Reply} {last : Spec.Streams}
      → (handle : ℤ) → Runs single m calls replies last
      → Runs single m (status_call handle ∷ calls) (reported (Spec.status handle m) ∷ replies) last

-- No call takes the one buffer away or adds one.
next_same_buffer :
    (handle : ℤ) (limit : ℕ) (h : Host)
    → (stream_next handle limit h).1.borrowed_stream_buffer ≡ h.borrowed_stream_buffer
unfolding stream_next next_at
next_same_buffer handle limit h = elim (Option-cases (slot_index handle)) [
  | inl e ↦ rw (e, stream_next) refl
  | inr (i, e) ↦ rw (e, stream_next) (ground arith)
]

close_same_buffer :
    (handle : ℤ) (h : Host)
    → (stream_close handle h).borrowed_stream_buffer ≡ h.borrowed_stream_buffer
unfolding stream_close close_at
close_same_buffer handle h = elim (Option-cases (slot_index handle)) [
  | inl e ↦ rw (e, stream_close) refl
  | inr (i, e) ↦ rw (e, stream_close) refl
]

write_back_same_single :
    (s : ByteSink) (h : Host)
    → (h.borrowed_stream_buffer ≡ none → s.owned ≡ true)
    → is_single (write_back s h).borrowed_stream_buffer ≡ is_single h.borrowed_stream_buffer
unfolding write_back
write_back_same_single s h own = elim (Option-cases h.borrowed_stream_buffer) [
  | inl e ↦ ground (arith, own e)
  | inr (buffer, e) ↦ ground (arith, e)
]

install_same_single :
    (slot : ℕ) (out : Option ℕ × ByteSink) (h : Host)
    → (h.borrowed_stream_buffer ≡ none → out.1.owned ≡ true)
    → is_single (install slot out h).1.borrowed_stream_buffer ≡ is_single h.borrowed_stream_buffer
unfolding install
install_same_single slot (none, s) h own = write_back_same_single s h own
install_same_single slot (some status, s) h own = write_back_same_single s h own

abbrev empty_sink : ByteSink
empty_sink = record { bytes = []; len = 0; cap = 0; owned = false; overflow = false }

open_sink_empty :
    (h : Host) (buffer : Option (List ℕ)) (s : ByteSink)
    → open_sink h buffer ≡ some s
    → (s.len ≡ 0) × (buffer ≡ none → s.owned ≡ true)
unfolding open_sink
open_sink_empty h none s e = ground (arith, e)
open_sink_empty h (some buffer) s e = (ground (arith, e), λ n. absurd (cc))

-- A refused open does not ask what the request would bring.
connect_refused :
    (single : Bool) (a b : Option (ℕ × List ℕ)) (m : Spec.Streams)
    → (if single then Spec.some_open max_streams 0 m else false) ≡ true
    → Spec.connect single a m ≡ Spec.connect single b m
connect_refused single a b m taken = elim (Option-cases (Spec.least_closed max_streams 0 m)) [
  | inl e ↦ rw (e, Spec.connect) refl
  | inr (i, e) ↦ rw (e, Spec.connect, taken) refl
]

module _ {h : Host} (v : IsValidHost h) where
  open_same_single :
      (r : Requester)
      → is_single (stream_open r h).1.borrowed_stream_buffer ≡ is_single h.borrowed_stream_buffer
  unfolding stream_open
  open_same_single r = elim (Option-cases (first_free h.streams 0)) [
    | inl e ↦ rw (e, stream_open) refl
    | inr (slot, e) ↦
        rw (e, stream_open)
          (elim (Option-cases (open_sink h h.borrowed_stream_buffer)) [
            | inl f ↦ rw f refl
            | inr (s, f) ↦
                let (vs, _) = open_sink_lem v h.borrowed_stream_buffer s refl f in
                rw f (
                  install_same_single slot (r.perform s) h (λ n.
                    r.keeps_owned s vs ∙ (open_sink_empty h h.borrowed_stream_buffer s f).1 n))
          ])
  ]

  -- What an open gets is what its request brings into some empty sink.
  brought :
      (r : Requester)
      → (s : ByteSink) × (s.len ≡ 0)
        × (Spec.connect (is_single h.borrowed_stream_buffer) (answer r h) (view h)
            ≡ Spec.connect (is_single h.borrowed_stream_buffer) (answer_of (r.perform s)) (view h))
  brought r = elim (refused-eq-open_sink v h.borrowed_stream_buffer) [
    | inr (s, f, _) ↦ (s, (open_sink_empty h h.borrowed_stream_buffer s f).0, rw (f, answer) refl)
    | inl (f, used) ↦ (
      empty_sink,
      refl,
      connect_refused (is_single h.borrowed_stream_buffer) (answer r h)
          (answer_of (r.perform empty_sink)) (view h)
          (ap (λ u. if is_single h.borrowed_stream_buffer then u else false) (sym (open_eq v))
            ∙ used),
    )
  ]

module _ {single : Bool} {m : Spec.Streams} {calls : List Call} {replies : List Reply}
    {last : Spec.Streams} where
  connects_to :
      (r : Requester) (s : ByteSink) (out : ℤ × Spec.Streams)
      → s.len ≡ 0
      → out ≡ Spec.connect single (answer_of (r.perform s)) m
      → Runs single out.1 calls replies last
      → Runs single m (open_call r ∷ calls) (opened out.0 ∷ replies) last
  connects_to r s out empty e later =
      rw e (connects r s empty (subst (λ o. Runs single o.1 calls replies last) e later))

  reads_to :
      (handle : ℤ) (limit : ℕ) (out : Option (List ℕ) × Spec.Streams)
      → out ≡ Spec.next handle limit m
      → Runs single out.1 calls replies last
      → Runs single m (next_call handle limit ∷ calls) (bytes_read out.0 ∷ replies) last
  reads_to handle limit out e later =
      rw e (reads handle limit (subst (λ o. Runs single o.1 calls replies last) e later))

-- From a valid table, the replies to any calls are those of a run of the specification.
run-Runs :
    (calls : List Call) {h : Host}
    → IsValidHost h
    → (single : Bool) → is_single h.borrowed_stream_buffer ≡ single
    → IsValidHost (run calls h).1
      × Runs single (view h) calls (run calls h).0 (view (run calls h).1)
run-Runs [] {h} v single e = (v, stop (view h))
run-Runs (open_call r ∷ calls) {h} v single e =
    let later = run-Runs calls (stream_open-IsValid v r) single (open_same_single v r ∙ e) in
    let (s, empty, same) = brought v r in
    (
      later.0,
      connects_to r s ((stream_open r h).0, view (stream_open r h).1) empty
          (stream_open_refines v r
            ∙ same
            ∙ ap (λ x. Spec.connect x (answer_of (r.perform s)) (view h)) e)
          later.1,
    )
run-Runs (next_call handle limit ∷ calls) {h} v single e =
    let later =
      run-Runs calls (stream_next-IsValid v handle limit) single
        (ap is_single (next_same_buffer handle limit h) ∙ e) in
    (
      later.0,
      reads_to handle limit ((stream_next handle limit h).0, view (stream_next handle limit h).1)
          (stream_next_refines v handle limit) later.1,
    )
run-Runs (close_call handle ∷ calls) {h} v single e =
    let later =
      run-Runs calls (stream_close-IsValid v handle) single
        (ap is_single (close_same_buffer handle h) ∙ e) in
    (
      later.0,
      closes handle (
          subst
            (λ m.
              Runs single m calls (run calls (stream_close handle h)).0
                (view (run calls (stream_close handle h)).1))
            (stream_close_refines v handle) later.1),
    )
run-Runs (status_call handle ∷ calls) {h} v single e =
    let later = run-Runs calls v single e in
    (
      later.0,
      subst
          (λ out.
            Runs single (view h) (status_call handle ∷ calls) (reported out ∷ (run calls h).0)
              (view (run calls h).1))
          (sym (stream_status_refines v handle)) (reports handle later.1),
    )

abbrev pub initial : Option (List ℕ) → ℕ → Host
initial buffer n = record {
  streams = no_streams;
  borrowed_stream_buffer = buffer;
  borrowed_stream_buffer_bytes = n;
}

-- After the table is set up, with no borrowed buffer or with one of at least the stated size, any calls
-- that the guest makes, in any order and with any handles and lengths, get the replies of a run of the
-- specification, and leave a valid table with the streams that the run leaves.
pub initial-Runs :
    (buffer : Option (List ℕ)) (n : ℕ) (calls : List Call)
    → Fits buffer n
    → n < word
    → let (replies, h) = run calls (initial buffer n) in
      IsValidHost h × Runs (is_single buffer) (view (initial buffer n)) calls replies (view h)
initial-Runs buffer n calls fits small =
    run-Runs calls (initial-IsValid buffer n fits small) (is_single buffer) refl
