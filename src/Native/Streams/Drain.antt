-- ===== src/Native/Streams/Drain.antt =====
-- The loop by which a client reads a response to its end.
use esp32_fx.Native.Streams.Refine.{next_at_refines}
use esp32_fx.Native.Streams.Spec
use esp32_fx.Native.Streams.Valid.{IsValidHost, next_at-IsValid, slot_index-lt}
use esp32_fx.Native.Streams.View.{view}
use esp32_fx.Native.Streams.{Host, slot_index, next_at, stream_next}
use esp32_fx.Prelude.{
  ℕ, zero, suc, ◌<◌, ◌≡◌, ap, ◌∙◌, Option, none, some, List, [], ◌∷◌, ◌++◌, length, take, drop,
  take-append-drop, length-drop, ℤ, arith,
}

-- Calls of `next`, each for `limit` bytes, until one brings nothing: all that they brought. `fuel`
-- bounds the calls; `none` means that a call failed or that the fuel ran out.
pub drain : ℕ → ℤ → ℕ → Host → Option (List ℕ)
drain zero handle limit h = none
drain (suc fuel) handle limit h =
    let (out, h') = stream_next handle limit h in
    elim out [
      | none ↦ none
      | some [] ↦ some []
      | some (b ∷ bs) ↦ elim (drain fuel handle limit h') [
        | none ↦ none
        | some later ↦ some ((b ∷ bs) ++ later)
      ]
    ]

module _ (handle : ℤ) (i : ℕ) (index : slot_index handle ≡ some i) where
  stream_next-eq : (limit : ℕ) (h : Host) → stream_next handle limit h ≡ next_at i limit h
  unfolding stream_next
  stream_next-eq limit h = rw (index, stream_next)

  next_facts :
      {h : Host} (v : IsValidHost h) (limit status : ℕ) (rest : List ℕ)
      → view h i ≡ some (status, rest)
      → ((stream_next handle limit h).0 ≡ some (take limit rest))
        × (view (stream_next handle limit h).1 i ≡ some (status, drop limit rest))
        × IsValidHost (stream_next handle limit h).1
  next_facts {h} v limit status rest e =
      let r =
        next_at_refines v i limit (slot_index-lt handle index)
        ∙ ap (Spec.next_entry (view h) i limit) e in
      rw (stream_next-eq limit h) (
        ap (λ (p : Option (List ℕ) × Spec.Streams). p.0) r,
        ap (λ (p : Option (List ℕ) × Spec.Streams). p.1 i) r ∙ ground arith,
        next_at-IsValid v i limit,
      )

  drain-suc_limit :
      (fuel limit : ℕ) {h : Host} (v : IsValidHost h) (status : ℕ) (rest : List ℕ)
      → view h i ≡ some (status, rest)
      → length rest < fuel
      → drain fuel handle (suc limit) h ≡ some rest
  unfolding drain
  drain-suc_limit zero limit v status rest e fuel_lt = absurd (omega arith)
  drain-suc_limit (suc fuel) limit {h} v status [] e fuel_lt =
      ground (arith, (next_facts v (suc limit) status [] e).0)
  drain-suc_limit (suc fuel) limit {h} v status (b ∷ bs) e fuel_lt =
      let (out, after, v') = next_facts v (suc limit) status (b ∷ bs) e in
      let ih =
        drain-suc_limit fuel limit v' status (drop limit bs) after
          (omega (arith, length-drop limit bs)) in
      ground (arith, out, ih, take-append-drop limit bs)

-- On a valid table, calls of `fx_http_stream_next` with room for at least one byte bring the whole
-- of what a stream has left, in order and without loss, and then report its end; no more calls are
-- needed than there are bytes, and one.
pub drain_lem :
    (handle : ℤ) (i limit fuel : ℕ) {h : Host} (status : ℕ) (rest : List ℕ)
    → IsValidHost h
    → slot_index handle ≡ some i
    → view h i ≡ some (status, rest)
    → 0 < limit
    → length rest < fuel
    → drain fuel handle limit h ≡ some rest
drain_lem handle i zero fuel status rest v index e l f = absurd (omega arith)
drain_lem handle i (suc limit) fuel status rest v index e l f =
    drain-suc_limit handle i index fuel limit v status rest e f
