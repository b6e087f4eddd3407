-- ===== src/Native/Session.antt =====
-- runtime/fx_wamr_native.c: the session imports, which keep nothing on this board, `init_native_lib` and
-- `deinit_native_lib`. A buffer of the guest is the list of its bytes.
pub mod Bounds
use esp32_fx.Native.Streams.{Host, StreamSlot, Block, heap, no_streams, cleared}
use esp32_fx.Prelude.{
  ℕ, ℤ, pos, minus_one, minus_two, Bool, true, false, Option, none, some, List, [], ◌∷◌, ◌++◌,
  length, blit, ltb, if◌then◌else◌, codes, map,
}

pub session_list : List ℕ → ℕ → ℤ × List ℕ
session_list out cap = if ltb cap 2 then (minus_two, out) else (pos 2, blit out 0 (codes "[]"))

pub session_remove : List ℕ → ℤ
session_remove id = pos 0

-- The result and `*revision_len`; the buffers are left alone.
pub session_load : List ℕ → ℤ × ℕ
session_load id = (minus_two, 0)

-- The bytes of `ephemeral_revision`, without the NUL
abbrev pub ephemeral_revision : List ℕ
ephemeral_revision = codes "ephemeral-1"

-- The result, the buffer `revision` and `*revision_len`, which a refusal leaves as it was.
pub session_commit : List ℕ → ℕ → ℕ → ℤ × List ℕ × ℕ
session_commit revision revision_cap revision_len =
    if ltb revision_cap (length ephemeral_revision)
    then (minus_one, revision, revision_len)
    else (pos 0, blit revision 0 ephemeral_revision, length ephemeral_revision)

pub oauth_session_load : ℤ × ℕ
oauth_session_load = (minus_two, 0)

pub oauth_session_commit : List ℕ → ℤ × ℕ
oauth_session_commit bytes = (minus_one, 0)

pub oauth_session_remove : List ℕ → ℤ
oauth_session_remove expected = pos 1

pub host_tool_result_read : ℕ → ℤ
host_tool_result_read offset = minus_one

-- `curl_starts` is the success of `curl_global_init`.
pub init_native_lib : Bool → Host → ℤ × Host
init_native_lib curl_starts h =
    (if curl_starts then pos 0 else minus_one, record h { streams = no_streams })

pub block_of : Block → List (List ℕ)
block_of (heap bytes) = bytes ∷ []
block_of _ = []

-- The loop over the streams: the blocks that are freed, and the slots that are left.
pub deinit_streams : List StreamSlot → List (List ℕ) × List StreamSlot
deinit_streams [] = ([], [])
deinit_streams (slot ∷ slots) =
    let (freed, left) = deinit_streams slots in
    ((if slot.owned then block_of slot.bytes else []) ++ freed, cleared ∷ left)

pub deinit_native_lib : Host → List (List ℕ) × Host
deinit_native_lib h =
    let (freed, left) = deinit_streams h.streams in
    (
      freed,
      record { streams = left; borrowed_stream_buffer = none; borrowed_stream_buffer_bytes = 0 },
    )
