-- ===== src/Native/Streams.antt =====
-- runtime/fx_wamr_native.c: the table of four buffered response streams, and the imports
-- `fx_http_stream_open`, `_status`, `_next` and `_close` over it. The HTTP exchange is the argument
-- `Requester`.
pub mod Valid
pub mod View
pub mod Spec
pub mod Refine
pub mod Opening
pub mod Connect
pub mod Drain
pub mod Trace
use esp32_fx.Native.Sink.Write.{IsValid}
use esp32_fx.Native.Sink.{ByteSink, max_stream_bytes}
use esp32_fx.Prelude.{
  ℕ, zero, suc, ◌+◌, ◌<◌, ◌≡◌, Bool, true, false, Option, none, some, List, [], ◌∷◌, length, get_or,
  set, take, drop, replicate, ltb, if◌then◌else◌, sub_size, add_size, ℤ, pos, negsuc, minus_one,
}

-- Where a slot's pointer points: nowhere, to the borrowed buffer, or to a heap block of its own.
pub data Block : Type 0 where
  null : Block
  lent : Block
  heap : List ℕ → Block

pub record StreamSlot : Type 0 where
  pub used : Bool
  pub owned : Bool
  pub status : ℕ
  pub bytes : Block
  pub len : ℕ
  pub cursor : ℕ

-- What `memset(slot, 0, sizeof *slot)` leaves.
abbrev pub cleared : StreamSlot
cleared = record { used = false; owned = false; status = 0; bytes = null; len = 0; cursor = 0 }

-- The static variables `streams`, `borrowed_stream_buffer` (the memory behind it, if it is not
-- NULL) and `borrowed_stream_buffer_bytes`.
pub record Host : Type 0 where
  pub streams : List StreamSlot
  pub borrowed_stream_buffer : Option (List ℕ)
  pub borrowed_stream_buffer_bytes : ℕ

abbrev pub max_streams : ℕ
max_streams = 4

-- The table as `init_native_lib` leaves it.
abbrev pub no_streams : List StreamSlot
no_streams = replicate max_streams cleared

pub set_stream_buffer : Option (List ℕ) → ℕ → Host → Host
set_stream_buffer bytes len h = record h {
  borrowed_stream_buffer = bytes;
  borrowed_stream_buffer_bytes = len;
}

-- What a request leaves in its sink, and its status if it succeeded.
pub record Requester : Type 0 where
  pub perform : ByteSink → Option ℕ × ByteSink
  pub keeps : (s : ByteSink) → IsValid s → IsValid (perform s).1
  pub keeps_owned : (s : ByteSink) → IsValid s → (perform s).1.owned ≡ s.owned
  pub keeps_cap : (s : ByteSink) → IsValid s → (perform s).1.cap ≡ s.cap
  pub status_word :
      (s : ByteSink) (status : ℕ) → IsValid s → (perform s).0 ≡ some status → status < 65536

-- The first slot that is not used, counted from `i`.
pub first_free : List StreamSlot → ℕ → Option ℕ
first_free [] i = none
first_free (s ∷ ss) i = let rest = first_free ss (i + 1) in if s.used then rest else some i

pub any_used : List StreamSlot → Bool
any_used [] = false
any_used (s ∷ ss) = if s.used then true else any_used ss

-- The sink that an open fills; `none` if the borrowed buffer is taken.
pub open_sink : Host → Option (List ℕ) → Option ByteSink
open_sink h (some buffer) =
    if any_used h.streams
    then none
    else some (record {
      bytes = buffer;
      len = 0;
      cap = h.borrowed_stream_buffer_bytes;
      owned = false;
      overflow = false;
    })
open_sink h none =
    some (record { bytes = []; len = 0; cap = max_stream_bytes; owned = true; overflow = false })

-- The borrowed buffer after a request wrote to the sink.
pub write_back : ByteSink → Host → Host
write_back sink h = if sink.owned then h else record h { borrowed_stream_buffer = some sink.bytes }

pub opened_slot : ByteSink → ℕ → StreamSlot
opened_slot sink status = record {
  used = true;
  owned = sink.owned;
  status = status;
  bytes = if sink.owned then heap sink.bytes else lent;
  len = sink.len;
  cursor = 0;
}

pub install : ℕ → Option ℕ × ByteSink → Host → ℤ × Host
install slot (none, sink) h = (minus_one, write_back sink h)
install slot (some status, sink) h =
    let h' = write_back sink h in
    (pos (slot + 1), record h' { streams = set h'.streams slot (opened_slot sink status) })

pub stream_open : Requester → Host → ℤ × Host
stream_open r h = elim (first_free h.streams 0) [
  | none ↦ (minus_one, h)
  | some slot ↦ elim (open_sink h h.borrowed_stream_buffer) [
    | none ↦ (minus_one, h)
    | some sink ↦ install slot (r.perform sink) h
  ]
]

-- `handle < 1 || handle > FX_WAMR_MAX_STREAMS`, and the index if not.
unfoldable pub slot_index : ℤ → Option ℕ
slot_index (negsuc n) = none
slot_index (pos zero) = none
slot_index (pos (suc i)) = if ltb i max_streams then some i else none

abbrev pub slot_at : Host → ℕ → StreamSlot
slot_at h i = get_or h.streams i cleared

-- The memory behind a slot's pointer.
unfoldable pub memory : Option (List ℕ) → Block → List ℕ
memory buffer null = []
memory none lent = []
memory (some buffer) lent = buffer
memory buffer (heap bytes) = bytes

-- The result, and what goes through `status_out`; after the check of the handle.
pub status_at : ℕ → Host → ℤ × Option ℕ
status_at i h = if (slot_at h i).used then (pos 1, some (slot_at h i).status) else (minus_one, none)

pub stream_status : ℤ → Host → ℤ × Option ℕ
stream_status handle h = elim (slot_index handle) [
  | none ↦ (minus_one, none)
  | some i ↦ status_at i h
]

-- How many bytes one call of `next` copies out.
pub chunk_len : StreamSlot → ℕ → ℕ
chunk_len s limit =
    let remaining = sub_size s.len s.cursor in if ltb remaining limit then remaining else limit

-- Those bytes, from the slot's memory.
pub chunk : Option (List ℕ) → StreamSlot → ℕ → List ℕ
chunk buffer s limit = take (chunk_len s limit) (drop s.cursor (memory buffer s.bytes))

-- The bytes written to `out`, if the call does not fail; their number is its result.
pub next_at : ℕ → ℕ → Host → Option (List ℕ) × Host
next_at i limit h =
    let s = slot_at h i in
    if s.used
    then (
      some (chunk h.borrowed_stream_buffer s limit),
      record h {
        streams = set h.streams i (record s { cursor = add_size s.cursor (chunk_len s limit) });
      },
    )
    else (none, h)

pub stream_next : ℤ → ℕ → Host → Option (List ℕ) × Host
stream_next handle limit h = elim (slot_index handle) [
  | none ↦ (none, h)
  | some i ↦ next_at i limit h
]

-- The slot is cleared whether or not it is used; a heap block goes with it.
pub close_at : ℕ → Host → Host
close_at i h = record h { streams = set h.streams i cleared }

pub stream_close : ℤ → Host → Host
stream_close handle h = elim (slot_index handle) [ none ↦ h | some i ↦ close_at i h ]
