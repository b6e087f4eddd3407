-- ===== src/Runner/Allocator/Place.antt =====
-- The first-fit search of `metadata_malloc`.
use esp32_fx.Runner.Allocator.Valid.{IsValid}
use esp32_fx.Runner.Allocator.{
  MetadataBlock, WamrAllocator, metadata_bytes, overlaps, first_overlap, align_up, no_room, at,
  out_of_fuel, place, rounds,
}
use esp32_fx.Prelude.{
  ℕ, zero, suc, ◌+◌, ◌%◌, ◌≤◌, ◌<◌, ◌≡◌, ◌≢◌, inl, inr, true, false, some, arith, Option-cases,
}

-- An aligned run of `size` bytes of the arena that meets no live block.
pub record Fits (a : WamrAllocator) (size offset : ℕ) : Type 0 where
  pub inside : offset + size ≤ metadata_bytes
  pub aligned : offset % 8 ≡ 0
  pub apart0 : overlaps a.block0 offset size ≡ false
  pub apart1 : overlaps a.block1 offset size ≡ false

module _ {a : WamrAllocator} (v : IsValid a) (size : ℕ) where
  -- A block that is met lies behind the offset with its end, inside the arena.
  first_overlap_lem :
      (offset : ℕ) (b : MetadataBlock)
      → first_overlap a offset size ≡ some b
      → (offset < b.offset + b.size)
        × (b.offset < offset + size)
        × (0 < b.size)
        × (b.offset + b.size ≤ metadata_bytes)
        × (overlaps b offset size ≡ true)
  unfolding first_overlap
  first_overlap_lem offset b e = ground (arith, v.valid0, v.valid1)

  pub place-Fits :
      (fuel offset : ℕ) {o : ℕ}
      → offset ≤ metadata_bytes
      → offset % 8 ≡ 0
      → place fuel offset size a ≡ at o
      → Fits a size o
  unfolding place
  place-Fits zero offset h al e = absurd (cc)
  place-Fits (suc fuel) offset {o} h al e = elim (Option-cases (first_overlap a offset size)) [
    | inl f ↦ unfold first_overlap in ground arith
    | inr (b, f) ↦
        let l = first_overlap_lem offset b f in
        place-Fits fuel (align_up (b.offset + b.size)) {o = o} (omega arith) (omega arith)
          (ground (arith, f))
  ]

  -- First fit is complete: while a run that fits lies ahead, the search does not give up.
  pub place_complete :
      (fuel offset x : ℕ) → offset ≤ x → Fits a size x → place fuel offset size a ≢ no_room
  unfolding place
  place_complete zero offset x h fit e = cc
  place_complete (suc fuel) offset x h fit e = elim (Option-cases (first_overlap a offset size)) [
    | inl f ↦ ground (arith, fit.inside, f)
    | inr (b, f) ↦
        place_complete fuel (align_up (b.offset + b.size)) x
          (unfold first_overlap in ground (arith, fit)) fit (ground (arith, fit.inside, f))
  ]

  pub place_ends : place rounds 0 size a ≢ out_of_fuel
  unfolding place first_overlap
  place_ends e = ground (arith, v)
