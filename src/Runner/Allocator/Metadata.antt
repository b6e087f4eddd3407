-- ===== src/Runner/Allocator/Metadata.antt =====
-- The metadata arena: what `metadata_malloc`, `metadata_realloc` and `wamr_free` do to its blocks.
use esp32_fx.Runner.Allocator.Place.{Fits, place-Fits, place_complete, place_ends}
use esp32_fx.Runner.Allocator.Valid.{IsValid}
use esp32_fx.Runner.Allocator.{
  WamrAllocator, Pointer, null, metadata, get_block, set_block, metadata_bytes, free_slot,
  Placement, no_room, at, out_of_fuel, place, rounds, store, metadata_malloc, metadata_slot,
  metadata_realloc, wamr_free,
}
use esp32_fx.Prelude.{
  ℕ, zero, suc, ◌<◌, ◌≡◌, ◌≢◌, ◌⊎◌, refl, inl, inr, none, some, arith, Option-cases, Bool-cases,
  ltb, ◌==◌, ◌||◌,
}

-- A null result, and the state as it was.
pub record Denied (a : WamrAllocator) (size : ℕ) (out : Pointer × WamrAllocator) : Type 0 where
  pub result : out.0 ≡ null
  pub unchanged : out.1 ≡ a
  pub reason :
      (size ≡ 0)
      ⊎ (metadata_bytes < size)
      ⊎ (0 < a.block0.size) × (0 < a.block1.size)
      ⊎ ((x : ℕ) → Fits a size x → ⊥)

-- A pointer to a run that was free and fits, recorded in a free slot.
pub record Allocated (a : WamrAllocator) (size : ℕ) (out : Pointer × WamrAllocator) : Type 0 where
  pub offset : ℕ
  pub slot : ℕ
  pub result : out.0 ≡ metadata offset
  pub was_free : (get_block a slot).size ≡ 0
  pub fits : Fits a size offset
  pub recorded : out.1 ≡ set_block a slot (record { offset = offset; size = size })
  pub slot_in : slot < 2
  pub nonzero : size ≢ 0

free_slot_lem :
    (a : WamrAllocator) (slot : ℕ)
    → free_slot a ≡ some slot
    → (slot < 2) × ((get_block a slot).size ≡ 0)
unfolding free_slot
free_slot_lem a slot e = ground arith

free_slot-none :
    (a : WamrAllocator) → free_slot a ≡ none → (0 < a.block0.size) × (0 < a.block1.size)
unfolding free_slot
free_slot-none a e = ground arith

Placement-cases : (p : Placement) → (p ≡ no_room) ⊎ ((o : ℕ) × (p ≡ at o)) ⊎ (p ≡ out_of_fuel)
Placement-cases no_room = inl refl
Placement-cases (at o) = inr (inl (o, refl))
Placement-cases out_of_fuel = inr (inr refl)

module _ {a : WamrAllocator} (v : IsValid a) where
  pub metadata_malloc_lem :
      (size : ℕ)
      → Allocated a size (metadata_malloc size a) ⊎ Denied a size (metadata_malloc size a)
  unfolding metadata_malloc store
  metadata_malloc_lem size = elim (Bool-cases (size == 0 || ltb metadata_bytes size)) [
    | inl bad ↦ rw bad (inr (record { result = refl; unchanged = refl; reason = ground arith }))
    | inr fine ↦ rw fine (elim (Option-cases (free_slot a)) [
      | inl e ↦ rw e (
          inr (record {
            result = refl;
            unchanged = refl;
            reason = inr (inr (inl (free_slot-none a e)));
          }))
      | inr (slot, e) ↦ rw e (elim (Placement-cases (place rounds 0 size a)) [
        | inl full ↦ rw full (
            inr (record {
              result = refl;
              unchanged = refl;
              reason =
                  inr
                    (inr (inr (λ x fit. place_complete v size rounds 0 x (omega arith) fit full)));
            }))
        | inr (inl (o, found)) ↦
            let (slot_in, was_free) = free_slot_lem a slot e in
            rw found (
              inl (record {
                offset = o;
                slot = slot;
                result = refl;
                was_free = was_free;
                fits = place-Fits v size rounds 0 (omega arith) (omega arith) found;
                recorded = refl;
                slot_in = slot_in;
                nonzero = ground (arith, fine);
              }))
        | inr (inr out) ↦ absurd (place_ends v size out)
      ])
    ])
  ]

  set_block-IsValid :
      (size slot offset : ℕ)
      → (get_block a slot).size ≡ 0
      → Fits a size offset
      → IsValid (set_block a slot (record { offset = offset; size = size }))
  set_block-IsValid size zero offset was_free fit = ground (arith, v, fit)
  set_block-IsValid size (suc slot) offset was_free fit = ground (arith, v, fit)

  pub metadata_malloc-IsValid : (size : ℕ) → IsValid (metadata_malloc size a).1
  metadata_malloc-IsValid size = elim (metadata_malloc_lem size) [
    | inl new ↦ rw new.recorded (set_block-IsValid size new.slot new.offset new.was_free new.fits)
    | inr old ↦ rw old.unchanged v
  ]

  pub metadata_realloc-IsValid :
      (slot size : ℕ) → slot < 2 → IsValid (metadata_realloc slot size a).1
  unfolding metadata_realloc
  metadata_realloc-IsValid zero size lt = ground (arith, v)
  metadata_realloc-IsValid (suc zero) size lt = ground (arith, v)
  metadata_realloc-IsValid (suc (suc slot)) size lt = absurd (omega arith)

  -- The block that a pointer names, if any, is live and starts there.
  pub metadata_slot_lem :
      (p : Pointer) (slot : ℕ)
      → metadata_slot a p ≡ some slot
      → (slot < 2) × (0 < (get_block a slot).size) × (p ≡ metadata (get_block a slot).offset)
  unfolding metadata_slot
  metadata_slot_lem (metadata o) slot e = ground arith
  metadata_slot_lem _ slot e = absurd (cc)

  -- `wamr_free` keeps the invariant of the allocator, whatever the pointer.
  pub wamr_free-IsValid : (p : Pointer) → IsValid (wamr_free p a)
  unfolding wamr_free
  wamr_free-IsValid p = elim (Option-cases (metadata_slot a p)) [
    | inl e ↦ rw (e, wamr_free) (ground (arith, v))
    | inr (zero, e) ↦ rw (e, wamr_free) (ground (arith, v))
    | inr (suc slot, e) ↦ rw (e, wamr_free) (ground (arith, v))
  ]
