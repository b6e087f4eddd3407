-- ===== src/Native/Session/Bounds.antt =====
-- runtime/fx_wamr_native.c: what the session imports write, and the table that is left when the library is
-- closed.
use esp32_fx.Native.Session.{ephemeral_revision, session_commit, deinit_streams, deinit_native_lib}
use esp32_fx.Native.Streams.Valid.{IsValidHost}
use esp32_fx.Native.Streams.{Host, StreamSlot, no_streams, cleared}
use esp32_fx.Prelude.{
  ℕ, ◌≤◌, ◌≡◌, ◌⊎◌, refl, ap, ◌∙◌, inl, inr, pos, minus_one, none, List, [], ◌∷◌, length, take,
  replicate, ltb, arith, Bool-cases, take-blit,
}

-- A revision is written whole, into the room that the guest gave, or the call fails and writes nothing.
pub session_commit_lem :
    (revision : List ℕ) (cap len : ℕ)
    → cap ≤ length revision
    → ((session_commit revision cap len).0 ≡ minus_one)
        × ((session_commit revision cap len).1 ≡ revision)
      ⊎ ((session_commit revision cap len).0 ≡ pos 0)
        × ((session_commit revision cap len).2 ≤ cap)
        × (take (session_commit revision cap len).2 (session_commit revision cap len).1
            ≡ ephemeral_revision)
unfolding session_commit
session_commit_lem revision cap len room = elim (Bool-cases (ltb cap 11)) [
  | inl e ↦ rw e (inl (refl, refl))
  | inr e ↦ rw e (
      inr (
        refl,
        ground (arith, e),
        take-blit revision 0 ephemeral_revision 11 refl (ground (arith, e)),
      ))
]

left_cleared :
    (slots : List StreamSlot) → (deinit_streams slots).1 ≡ replicate (length slots) cleared
unfolding deinit_streams
left_cleared [] = refl
left_cleared (slot ∷ slots) = ap (◌∷◌ cleared) (left_cleared slots)

-- Closing the library leaves a valid table as it was before the library was opened.
pub deinit_native_lib_lem :
    (h : Host)
    → IsValidHost h
    → (deinit_native_lib h).1 ≡ record {
      streams = no_streams;
      borrowed_stream_buffer = none;
      borrowed_stream_buffer_bytes = 0;
    }
unfolding deinit_native_lib
deinit_native_lib_lem h v =
    ap
      (λ slots. record {
        streams = slots;
        borrowed_stream_buffer = none;
        borrowed_stream_buffer_bytes = 0;
      })
      (left_cleared h.streams ∙ ap (λ n. replicate n cleared) v.four)
