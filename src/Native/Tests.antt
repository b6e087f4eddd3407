-- ===== src/Native/Tests.antt =====
-- Runs of runtime/fx_wamr_native.c's model at concrete inputs, and the theorems about it there.
use esp32_fx.Native.Sink.Write
use esp32_fx.Native.Sink.Write.{Outcome, write_body-Outcome, write_body_keeps}
use esp32_fx.Native.Sink.{ByteSink, KeepsBytes, max_stream_bytes, write_body}
use esp32_fx.Native.Streams.Connect.{answer, stream_open_refines}
use esp32_fx.Native.Streams.Drain.{drain, drain_lem}
use esp32_fx.Native.Streams.Spec
use esp32_fx.Native.Streams.Trace.{
  Call, open_call, next_call, close_call, status_call, Runs, run, initial, initial-Runs,
}
use esp32_fx.Native.Streams.Valid.{IsValidHost, cleared-IsValidSlot, initial-IsValid, IsValidSlot}
use esp32_fx.Native.Streams.View.{view}
use esp32_fx.Native.Streams.{
  Host, Requester, StreamSlot, heap, cleared, no_streams, stream_open, slot_index, memory,
}
use esp32_fx.Prelude.{
  ℕ, zero, suc, ◌-◌, ◌<◌, ◌≡◌, refl, sym, ◌∙◌, inr, true, false, Option, some, none, List, [], ◌∷◌,
  ◌++◌, length, take, replicate, length-append, length-take, length-replicate, take-append,
  take-take, pos, arith,
}

-- A `realloc` that always finds the memory, and gives zeros behind what it keeps.
abbrev grow_block : List ℕ → ℕ → Option (List ℕ)
grow_block old size = some (take size old ++ replicate (size - length old) 0)

grow_block-KeepsBytes : KeepsBytes grow_block
grow_block-KeepsBytes old size new e =
    let n : new ≡ take size old ++ replicate (size - length old) 0 = sym (cc (e)) in
    rw n (
      omega (
        arith,
        length-append (take size old) (replicate (size - length old) 0),
        length-take size old,
        length-replicate {A = ℕ} (size - length old) 0,
      ),
      λ k h1 h2.
          take-append k (take size old) _ (omega (arith, length-take size old))
          ∙ take-take k size k old (omega arith),
    )

abbrev sink : ByteSink
sink = record { bytes = []; len = 0; cap = max_stream_bytes; owned = true; overflow = false }

sink-IsValid : Write.IsValid sink
sink-IsValid = record {
  within = omega arith;
  cap_word = omega arith;
  owned_cap = λ _. refl;
  fits = inr (refl, refl);
}

write_body-Outcome_example :
    Outcome grow_block sink
      (b'o' ∷ b'k' ∷ b'!' ∷ [])
      2
      (write_body grow_block (b'o' ∷ b'k' ∷ b'!' ∷ []) 1 2 sink)
write_body-Outcome_example =
    write_body-Outcome grow_block grow_block-KeepsBytes sink (b'o' ∷ b'k' ∷ b'!' ∷ []) 1 2
      sink-IsValid (omega arith)

small_status :
    (s : ByteSink) (status : ℕ) → Write.IsValid s → some 200 ≡ some status → status < 65536
small_status s status v e = ground arith

-- A request that brings the two bytes `ok` with the status 200.
abbrev ok_request : Requester
ok_request = record {
  perform = λ s. (some 200, (write_body grow_block (b'o' ∷ b'k' ∷ []) 1 2 s).1);
  keeps = λ s v.
      (write_body_keeps grow_block grow_block-KeepsBytes s (b'o' ∷ b'k' ∷ []) 1 2 v
        (omega arith)).0;
  keeps_owned = λ s v.
      (write_body_keeps grow_block grow_block-KeepsBytes s (b'o' ∷ b'k' ∷ []) 1 2 v
        (omega arith)).1;
  keeps_cap = λ s v.
      (write_body_keeps grow_block grow_block-KeepsBytes s (b'o' ∷ b'k' ∷ []) 1 2 v
        (omega arith)).2;
  status_word = small_status;
}

-- The host of the board's build, with its one buffer, and one without.
abbrev board : Host
board = record {
  streams = no_streams;
  borrowed_stream_buffer = some (0 ∷ 0 ∷ 0 ∷ 0 ∷ []);
  borrowed_stream_buffer_bytes = 4;
}

-- A stream of three bytes on the heap, one delivered.
abbrev half_read : StreamSlot
half_read = record {
  used = true;
  owned = true;
  status = 200;
  bytes = heap (b'a' ∷ b'b' ∷ b'c' ∷ []);
  len = 3;
  cursor = 1;
}

abbrev host : Host
host = record {
  streams = cleared ∷ half_read ∷ cleared ∷ cleared ∷ [];
  borrowed_stream_buffer = none;
  borrowed_stream_buffer_bytes = 0;
}

board-IsValid : IsValidHost board
board-IsValid = initial-IsValid (some (0 ∷ 0 ∷ 0 ∷ 0 ∷ [])) 4 (omega arith) (omega arith)

half_read-IsValid : IsValidSlot none half_read
unfolding memory
half_read-IsValid = record {
  cursor_in = omega arith;
  len_in = omega arith;
  len_word = omega arith;
  status_word = omega arith;
  idle = λ e. cc;
}

host-IsValid : IsValidHost host
host-IsValid = record {
  four = refl;
  slots = elim [
    | zero ↦ cleared-IsValidSlot _
    | suc zero ↦ half_read-IsValid
    | suc (suc zero) ↦ cleared-IsValidSlot _
    | suc (suc (suc zero)) ↦ cleared-IsValidSlot _
    | suc (suc (suc (suc i))) ↦ cleared-IsValidSlot _
  ];
  exclusive = λ b e. absurd (cc);
  not_lent = λ e. elim [
    | zero ↦ λ l. cc
    | suc zero ↦ λ l. cc
    | suc (suc zero) ↦ λ l. cc
    | suc (suc (suc zero)) ↦ λ l. cc
    | suc (suc (suc (suc i))) ↦ λ l. cc
  ];
  buffer_fits = λ b e. absurd (cc);
  buffer_word = omega arith;
}

stream_open_refines_example :
    let (result, h) = stream_open ok_request board in
    (result, view h) ≡ Spec.connect true (answer ok_request board) (view board)
stream_open_refines_example = stream_open_refines board-IsValid ok_request

drain_lem_example : drain 5 (pos 2) 1 host ≡ some (b'b' ∷ b'c' ∷ [])
unfolding slot_index memory
drain_lem_example =
    drain_lem (pos 2) 1 1 5 200 (b'b' ∷ b'c' ∷ []) host-IsValid refl refl (omega arith)
      (omega arith)

-- The guest opens a stream, reads two bytes of it, asks for its status, closes it, and reads again.
abbrev calls : List Call
calls =
    open_call ok_request
    ∷ next_call (pos 1) 2
    ∷ status_call (pos 1)
    ∷ close_call (pos 1)
    ∷ next_call (pos 1) 2
    ∷ []

initial-Runs_example :
    let buffer : Option (List ℕ) = some (0 ∷ 0 ∷ 0 ∷ 0 ∷ []) in
    let (replies, h) = run calls (initial buffer 4) in
    IsValidHost h × Runs true (view (initial buffer 4)) calls replies (view h)
initial-Runs_example = initial-Runs (some (0 ∷ 0 ∷ 0 ∷ 0 ∷ [])) 4 calls (omega arith) (omega arith)
