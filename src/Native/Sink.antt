-- ===== src/Native/Sink.antt =====
-- runtime/fx_wamr_native.c: `struct byte_sink`, `write_body` and `sink_append`, through which every
-- byte of a response reaches its buffer. A block of memory is the list of its bytes; `realloc` is
-- libc's, a parameter.
pub mod Write
use esp32_fx.Prelude.{
  ℕ, zero, suc, ◌+◌, ◌*◌, ◌/◌, ◌≤◌, ◌≡◌, Bool, true, false, not, ◌&&◌, Option, none, some, List, [],
  ◌∷◌, length, take, blit, min, ltb, ◌==◌, if◌then◌else◌, size_max, add_size, sub_size, mul_size,
}

-- FX_WAMR_MAX_STREAM_BYTES, as tools/build.py sets it for the board; the source's default is 2 MiB.
abbrev pub max_stream_bytes : ℕ
max_stream_bytes = 64 * 1024

-- `bytes` is the memory behind the pointer, all of it: the first `len` bytes are the response.
pub record ByteSink : Type 0 where
  pub bytes : List ℕ
  pub len : ℕ
  pub cap : ℕ
  pub owned : Bool
  pub overflow : Bool

-- The response so far.
abbrev pub received : ByteSink → List ℕ
received sink = take sink.len sink.bytes

-- The loop that doubles `next`, with its test bounded by `fuel` rounds.
pub double_capacity : ℕ → ℕ → ℕ → ℕ
double_capacity zero next wanted = next
double_capacity (suc fuel) next wanted =
    let rest = double_capacity fuel (mul_size next 2) wanted in
    if ltb next wanted
    then (if ltb (max_stream_bytes / 2) next then max_stream_bytes else rest)
    else next

-- The capacity that `write_body` asks `realloc` for; 32 rounds double any word past its end.
pub next_capacity : ℕ → ℕ → ℕ
next_capacity cap wanted =
    let next = double_capacity 32 (if ltb cap 4096 then 4096 else cap) wanted in
    if ltb max_stream_bytes next then max_stream_bytes else next

-- What C promises of `realloc`: the block has the size asked for and keeps the bytes it had.
abbrev pub KeepsBytes : (List ℕ → ℕ → Option (List ℕ)) → Type 0
KeepsBytes realloc =
    (old : List ℕ) (size : ℕ) (new : List ℕ)
    → realloc old size ≡ some new
    → (length new ≡ size) × ((k : ℕ) → k ≤ length old → k ≤ size → take k new ≡ take k old)

refuse : ByteSink → ℕ × ByteSink
refuse sink = (0, record sink { overflow = true })

-- `memcpy` at `len`, and the new `len`.
accept : ByteSink → List ℕ → ℕ → ℕ × ByteSink
accept sink contents count = (
  count,
  record sink {
    bytes = if count == 0 then sink.bytes else blit sink.bytes sink.len (take count contents);
    len = add_size sink.len count;
  },
)

module _ (realloc : List ℕ → ℕ → Option (List ℕ)) where
  -- The part under `if (sink->owned && wanted > 0)`.
  pub grow : ByteSink → ℕ → Option ByteSink
  grow sink wanted =
      if sink.owned && not (wanted == 0)
      then (elim (realloc sink.bytes (next_capacity sink.cap wanted)) [
        | none ↦ none
        | some grown ↦ some (record sink { bytes = grown; cap = next_capacity sink.cap wanted })
      ])
      else some sink

  pub write_counted : List ℕ → ℕ → ByteSink → ℕ × ByteSink
  write_counted contents count sink =
      if ltb (sub_size sink.cap sink.len) count
      then refuse sink
      else (elim (grow sink (add_size sink.len count)) [
        | none ↦ refuse sink
        | some grown ↦ accept grown contents count
      ])

  -- `contents` are the `size * nmemb` bytes that libcurl hands over.
  pub write_body : List ℕ → ℕ → ℕ → ByteSink → ℕ × ByteSink
  write_body contents size nmemb sink =
      if not (size == 0) && ltb (size_max / size) nmemb
      then refuse sink
      else write_counted contents (mul_size size nmemb) sink

  -- `true` is the return value 0.
  unfoldable pub sink_append : ByteSink → List ℕ → Bool × ByteSink
  sink_append sink bytes =
      if length bytes == 0
      then (true, sink)
      else (let (n, sink') = write_body bytes 1 (length bytes) sink in (n == length bytes, sink'))
