-- ===== src/Native/Streams/Spec.antt =====
-- What the stream imports promise, with no buffers or cursors: a map from handles to a status and
-- the bytes still to come.
use esp32_fx.Native.Streams.{slot_index, max_streams}
use esp32_fx.Prelude.{
  ℕ, zero, suc, ◌+◌, Bool, true, false, Option, none, some, List, take, drop, ◌==◌, if◌then◌else◌,
  ℤ, pos, minus_one,
}

-- Indexed by the handle less one.
abbrev pub Streams : Type 0
Streams = ℕ → Option (ℕ × List ℕ)

abbrev pub assign : Streams → ℕ → Option (ℕ × List ℕ) → Streams
assign m i entry j = if i == j then entry else m j

abbrev pub next_entry : Streams → ℕ → ℕ → Option (ℕ × List ℕ) → Option (List ℕ) × Streams
next_entry m i limit none = (none, m)
next_entry m i limit (some (status, rest)) =
    (some (take limit rest), assign m i (some (status, drop limit rest)))

-- The next `limit` bytes of an open stream; a closed or unknown handle fails.
abbrev pub next : ℤ → ℕ → Streams → Option (List ℕ) × Streams
next handle limit m = elim (slot_index handle) [
  | none ↦ (none, m)
  | some i ↦ next_entry m i limit (m i)
]

abbrev pub status_entry : Option (ℕ × List ℕ) → ℤ × Option ℕ
status_entry none = (minus_one, none)
status_entry (some (status, rest)) = (pos 1, some status)

abbrev pub status : ℤ → Streams → ℤ × Option ℕ
status handle m = elim (slot_index handle) [
  | none ↦ (minus_one, none)
  | some i ↦ status_entry (m i)
]

abbrev pub close : ℤ → Streams → Streams
close handle m = elim (slot_index handle) [ none ↦ m | some i ↦ assign m i none ]

-- The least closed entry among `n` from `i` on.
abbrev pub least_closed : ℕ → ℕ → Streams → Option ℕ
least_closed zero i m = none
least_closed (suc n) i m = elim (m i) [ none ↦ some i | some _ ↦ least_closed n (i + 1) m ]

-- Whether one of `n` entries from `i` on is open.
abbrev pub some_open : ℕ → ℕ → Streams → Bool
some_open zero i m = false
some_open (suc n) i m = elim (m i) [ none ↦ some_open n (i + 1) m | some _ ↦ true ]

-- What the request brought goes to handle `i + 1`.
abbrev pub accepted : ℕ → Option (ℕ × List ℕ) → Streams → ℤ × Streams
accepted i none m = (minus_one, m)
accepted i (some a) m = (pos (i + 1), assign m i (some a))

-- An open that the host does not refuse takes the least closed handle; `answer` is what the request
-- brought. `single` says that there is one borrowed buffer for all streams.
abbrev pub connect : Bool → Option (ℕ × List ℕ) → Streams → ℤ × Streams
connect single answer m = elim (least_closed max_streams 0 m) [
  | none ↦ (minus_one, m)
  | some i ↦
      if (if single then some_open max_streams 0 m else false)
      then (minus_one, m)
      else accepted i answer m
]
