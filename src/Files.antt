-- ===== src/Files.antt =====
-- Reading from a descriptor. What the kernel answers is a list of events, the answers to the coming calls
-- of `read`; behind the last one every call gives the end of the file.
pub mod Content
use esp32_fx.Prelude.{
  ℕ, zero, suc, ◌-◌, Option, none, some, List, [], ◌∷◌, ◌++◌, length, take, drop, ltb, ◌==◌,
  if◌then◌else◌, ◌>>=◌,
}

-- A call is interrupted (EINTR), fails, or can give bytes: as many of them as it has room for, and the next
-- call the others.
pub data ReadEvent : Type 0 where
  interrupted : ReadEvent
  read_failed : ReadEvent
  chunk_ready : List ℕ → ReadEvent

-- `read_all` of runtime/fx_wamr_runner.c: the bytes, and the events left; `none` is the result -1. A call
-- that gives no bytes is the end of the file.
unfoldable pub read_all : ℕ → List ReadEvent → Option (List ℕ × List ReadEvent)
read_all size [] = if size == 0 then some ([], []) else none
read_all size (interrupted ∷ events) =
    let later = read_all size events in if size == 0 then some ([], interrupted ∷ events) else later
read_all size (read_failed ∷ events) = if size == 0 then some ([], read_failed ∷ events) else none
read_all size (chunk_ready bytes ∷ events) =
    let later = (do
      (rest, left) ← read_all (size - length bytes) events
      some (bytes ++ rest, left)) in
    if size == 0
    then some ([], chunk_ready bytes ∷ events)
    else if length bytes == 0
    then none
    else if ltb size (length bytes)
    then some (take size bytes, chunk_ready (drop size bytes) ∷ events)
    else later
