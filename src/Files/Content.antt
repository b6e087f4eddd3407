-- ===== src/Files/Content.antt =====
-- What `read_all` reads of a file, however the kernel cuts it.
use esp32_fx.Files.{ReadEvent, interrupted, read_failed, chunk_ready, read_all}
use esp32_fx.Prelude.{
  ℕ, zero, suc, ◌+◌, ◌-◌, ◌≤◌, ◌<◌, ◌≡◌, refl, sym, ap, ◌∙◌, inl, inr, Option, none, some, List, [],
  ◌∷◌, ◌++◌, length, take, drop, ltb, ◌>>=◌, length-append, length-drop, subst, arith, Bool-cases,
}

-- The events bring the file's bytes: calls may be interrupted, but none fails, and none gives no bytes
-- before the end.
abbrev pub Brings : List ReadEvent → List ℕ → Type 0
Brings [] content = content ≡ []
Brings (interrupted ∷ events) content = Brings events content
Brings (read_failed ∷ events) content = ◌≡◌ {A = ℕ} 0 1
Brings (chunk_ready bytes ∷ events) content =
    (0 < length bytes) × ((rest : List ℕ) × (content ≡ bytes ++ rest) × Brings events rest)

-- What a read of `size` bytes gives.
abbrev pub Reads : ℕ → List ℕ → Option (List ℕ × List ReadEvent) → Type 0
Reads size content out =
    (left : List ReadEvent) × (out ≡ some (take size content, left))
    × Brings left (drop size content)

read_all-zero : (events : List ReadEvent) → read_all 0 events ≡ some ([], events)
unfolding read_all
read_all-zero [] = refl
read_all-zero (interrupted ∷ events) = refl
read_all-zero (read_failed ∷ events) = refl
read_all-zero (chunk_ready bytes ∷ events) = refl

split_take :
    (size k : ℕ) (some_bytes rest : List ℕ)
    → k + length some_bytes ≡ size
    → (take size (some_bytes ++ rest) ≡ some_bytes ++ take k rest)
      × (drop size (some_bytes ++ rest) ≡ drop k rest)
split_take size k [] rest h =
    (ap (λ n. take n rest) (omega arith), ap (λ n. drop n rest) (omega arith))
split_take zero k (b ∷ some_bytes) rest h = absurd (omega arith)
split_take (suc size) k (b ∷ some_bytes) rest h =
    let below = split_take size k some_bytes rest (omega arith) in (ap (◌∷◌ b) below.0, below.1)

split_part :
    (size : ℕ) (some_bytes rest : List ℕ)
    → size < length some_bytes
    → (take size (some_bytes ++ rest) ≡ take size some_bytes)
      × (drop size (some_bytes ++ rest) ≡ drop size some_bytes ++ rest)
split_part size [] rest h = absurd (omega arith)
split_part zero (b ∷ some_bytes) rest h = (refl, refl)
split_part (suc size) (b ∷ some_bytes) rest h =
    let below = split_part size some_bytes rest (omega arith) in (ap (◌∷◌ b) below.0, below.1)

-- One step of the loop, by what the call gives.
read_all-interrupted :
    (size : ℕ) (events : List ReadEvent)
    → 0 < size
    → read_all size (interrupted ∷ events) ≡ read_all size events
unfolding read_all
read_all-interrupted size events h = ground (arith)

read_all-part :
    (size : ℕ) (bytes : List ℕ) (events : List ReadEvent)
    → 0 < length bytes
    → size < length bytes
    → read_all size (chunk_ready bytes ∷ events)
      ≡ some (take size bytes, chunk_ready (drop size bytes) ∷ events)
unfolding read_all
read_all-part zero bytes events some_bytes h = refl
read_all-part (suc size) bytes events some_bytes h = ground (arith)

read_all-chunk :
    (size : ℕ) (bytes : List ℕ) (events : List ReadEvent)
    → 0 < length bytes
    → length bytes ≤ size
    → read_all size (chunk_ready bytes ∷ events)
      ≡ (do (rest, left) ← read_all (size - length bytes) events; some (bytes ++ rest, left))
unfolding read_all
read_all-chunk size bytes events some_bytes h = ground (arith)

part_read :
    {content : List ℕ} (size : ℕ) (bytes rest : List ℕ) (events : List ReadEvent)
    → content ≡ bytes ++ rest
    → Brings events rest
    → size < length bytes
    → Reads size content (read_all size (chunk_ready bytes ∷ events))
part_read {content} size bytes rest events whole later h =
    let (taken, dropped) = split_part size bytes rest h in
    (
      chunk_ready (drop size bytes) ∷ events,
      read_all-part size bytes events (omega arith) h
          ∙ ap (λ xs. some (xs, chunk_ready (drop size bytes) ∷ events))
              (sym taken ∙ ap (take size) (sym whole)),
      (omega (arith, length-drop size bytes), (rest, ap (drop size) whole ∙ dropped, later)),
    )

chunk_read :
    {content : List ℕ} (size : ℕ) (bytes rest : List ℕ) (events : List ReadEvent)
    → 0 < length bytes
    → content ≡ bytes ++ rest
    → length bytes ≤ size
    → Reads (size - length bytes) rest (read_all (size - length bytes) events)
    → Reads size content (read_all size (chunk_ready bytes ∷ events))
chunk_read {content} size bytes rest events some_bytes whole h (left, found, next) =
    let (taken, dropped) = split_take size (size - length bytes) bytes rest (omega arith) in
    (
      left,
      read_all-chunk size bytes events some_bytes h
          ∙ rw found (ap (λ xs. some (xs, left)) (sym taken ∙ ap (take size) (sym whole))),
      subst (Brings left) (sym (ap (drop size) whole ∙ dropped)) next,
    )

-- `read_all` reads the first bytes of the file, as many as were asked for, if the file has them, however the
-- kernel cuts the file into answers, and however often it interrupts a call; the next call goes on there.
pub read_all-Reads :
    (size : ℕ) (events : List ReadEvent) (content : List ℕ)
    → Brings events content
    → size ≤ length content
    → Reads size content (read_all size events)
read_all-Reads zero events content b h = (events, read_all-zero events, b)
read_all-Reads (suc size) [] content b h = absurd (ground (arith))
read_all-Reads (suc size) (interrupted ∷ events) content b h =
    let (left, found, next) = read_all-Reads (suc size) events content b h in
    (left, read_all-interrupted (suc size) events (omega arith) ∙ found, next)
read_all-Reads (suc size) (read_failed ∷ events) content b h = absurd (omega arith)
read_all-Reads (suc size) (chunk_ready bytes ∷ events) content (some_bytes, (rest, whole, later))
      h =
    elim (Bool-cases (ltb (suc size) (length bytes))) [
      | inl e ↦ part_read (suc size) bytes rest events whole later (ground (arith))
      | inr e ↦
          (let under : length bytes ≤ suc size = ground (arith) in
            let inside : suc size - length bytes ≤ length rest =
              omega (arith, ap length whole, length-append bytes rest) in
            chunk_read (suc size) bytes rest events some_bytes whole under
              (read_all-Reads (suc size - length bytes) events rest later inside))
    ]

-- A file that is too short makes `read_all` fail.
pub read_all_short :
    (size : ℕ) (events : List ReadEvent) (content : List ℕ)
    → Brings events content
    → length content < size
    → read_all size events ≡ none
unfolding read_all
read_all_short zero events content b h = absurd (omega arith)
read_all_short (suc size) [] content b h = ground (arith)
read_all_short (suc size) (interrupted ∷ events) content b h =
    let ends = read_all_short (suc size) events content b h in ground (arith)
read_all_short (suc size) (read_failed ∷ events) content b h = absurd (omega arith)
read_all_short (suc size) (chunk_ready bytes ∷ events) content (some_bytes, (rest, whole, later))
      h =
    let under : length bytes ≤ suc size =
      omega (arith, ap length whole, length-append bytes rest) in
    let ends =
      read_all_short (suc size - length bytes) events rest later
        (omega (arith, ap length whole, length-append bytes rest)) in
    read_all-chunk (suc size) bytes events some_bytes under ∙ rw ends refl
