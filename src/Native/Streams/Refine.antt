-- ===== src/Native/Streams/Refine.antt =====
-- Each import does to the table what the specification does to its view.
use mathlib.Core.Path.{fun_ext}
use esp32_fx.Native.Streams.{
  cleared, Host, max_streams, slot_index, next_at, stream_next, close_at, stream_close, status_at,
  stream_status,
}
use esp32_fx.Native.Streams.Spec
use esp32_fx.Native.Streams.Valid.{IsValidHost, slot_index-lt}
use esp32_fx.Native.Streams.View.{view, next_at-Delivers, next_at_closed}
use esp32_fx.Prelude.{ℕ, ◌<◌, ◌≡◌, inl, inr, none, get_or-set, ℤ, arith, Option-cases}

module _ {h : Host} (v : IsValidHost h) where
  pub next_at_refines :
      (i limit : ℕ)
      → i < max_streams
      → let (out, h') = next_at i limit h in
        (out, view h') ≡ Spec.next_entry (view h) i limit (view h i)
  next_at_refines i limit lt = elim (Option-cases (view h i)) [
    | inl e ↦ rw e (rw (next_at_closed v i limit lt e))
    | inr ((status, rest), e) ↦
        let d = next_at-Delivers v i limit lt status rest e in
        rw e (λ k. (d.delivered k, fun_ext d.remaining k))
  ]

  close_at_refines : (i : ℕ) → i < max_streams → view (close_at i h) ≡ Spec.assign (view h) i none
  unfolding close_at
  close_at_refines i lt =
      fun_ext λ j. ground (arith, v.four, get_or-set h.streams i j cleared cleared)

  -- On a valid table, a call of `fx_http_stream_next` returns what the specification returns, and
  -- leaves the streams that it leaves: the next bytes of that stream in order, and every other
  -- stream untouched.
  pub stream_next_refines :
      (handle : ℤ) (limit : ℕ)
      → let (out, h') = stream_next handle limit h in
        (out, view h') ≡ Spec.next handle limit (view h)
  unfolding stream_next
  stream_next_refines handle limit = elim (Option-cases (slot_index handle)) [
    | inl e ↦ rw (e, stream_next, Spec.next)
    | inr (i, e) ↦ rw (e, stream_next, Spec.next) (next_at_refines i limit (slot_index-lt handle e))
  ]

  -- On a valid table, `fx_http_stream_close` forgets the stream of its handle and no other.
  pub stream_close_refines :
      (handle : ℤ) → view (stream_close handle h) ≡ Spec.close handle (view h)
  unfolding stream_close
  stream_close_refines handle = elim (Option-cases (slot_index handle)) [
    | inl e ↦ rw (e, stream_close, Spec.close)
    | inr (i, e) ↦ rw (e, stream_close, Spec.close) (close_at_refines i (slot_index-lt handle e))
  ]

  -- On a valid table, `fx_http_stream_status` returns 0 and the status of an open handle, and -1
  -- for any other handle.
  pub stream_status_refines : (handle : ℤ) → stream_status handle h ≡ Spec.status handle (view h)
  unfolding stream_status status_at
  stream_status_refines handle = elim (Option-cases (slot_index handle)) [
    | inl e ↦ rw (e, stream_status, Spec.status)
    | inr (i, e) ↦ rw (e, stream_status, Spec.status) (ground arith)
  ]
