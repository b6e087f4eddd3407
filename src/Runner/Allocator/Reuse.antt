-- ===== src/Runner/Allocator/Reuse.antt =====
-- Freeing a block of the metadata arena, and the slot that it leaves.
use esp32_fx.Runner.Allocator.Metadata.{metadata_malloc_lem}
use esp32_fx.Runner.Allocator.Place.{Fits}
use esp32_fx.Runner.Allocator.Valid.{IsValid}
use esp32_fx.Runner.Allocator.{
  WamrAllocator, metadata, get_block, set_block, metadata_slot, metadata_malloc, wamr_free,
}
use esp32_fx.Prelude.{ℕ, zero, suc, ◌<◌, ◌≡◌, ◌≢◌, inl, inr, some, arith}

-- The blocks of `b` are those of `a`, but for the offset that a free slot keeps.
pub record SameBlocks (a b : WamrAllocator) : Type 0 where
  pub size0 : b.block0.size ≡ a.block0.size
  pub size1 : b.block1.size ≡ a.block1.size
  pub offset0 : a.block0.size ≢ 0 → b.block0.offset ≡ a.block0.offset
  pub offset1 : a.block1.size ≢ 0 → b.block1.offset ≡ a.block1.offset

-- A pointer that `metadata_malloc` gave finds its own slot, although the slots are searched in
-- order.
finds_slot :
    (a : WamrAllocator) (size slot offset : ℕ)
    → slot < 2
    → size ≢ 0
    → (get_block a slot).size ≡ 0
    → Fits a size offset
    → metadata_slot (set_block a slot (record { offset = offset; size = size })) (metadata offset)
      ≡ some slot
unfolding metadata_slot
finds_slot a size zero offset lt nz free fit = ground arith
finds_slot a size (suc zero) offset lt nz free fit = ground (arith, fit)
finds_slot a size (suc (suc slot)) offset lt nz free fit = absurd (omega arith)

frees_slot :
    (a : WamrAllocator) (size slot offset : ℕ)
    → slot < 2
    → size ≢ 0
    → (get_block a slot).size ≡ 0
    → Fits a size offset
    → SameBlocks a
        (wamr_free (metadata offset) (set_block a slot (record { offset = offset; size = size })))
unfolding wamr_free
frees_slot a size zero offset lt nz free fit =
    rw (finds_slot a size zero offset lt nz free fit, wamr_free) (ground arith)
frees_slot a size (suc zero) offset lt nz free fit =
    rw (finds_slot a size (suc zero) offset lt nz free fit, wamr_free) (ground arith)
frees_slot a size (suc (suc slot)) offset lt nz free fit = absurd (omega arith)

-- On a valid allocator, freeing what `metadata_malloc` has just given leaves the live blocks as
-- they were before.
pub wamr_free-metadata_malloc :
    (a : WamrAllocator) (size offset : ℕ)
    → IsValid a
    → (metadata_malloc size a).0 ≡ metadata offset
    → SameBlocks a (wamr_free (metadata offset) (metadata_malloc size a).1)
wamr_free-metadata_malloc a size offset v e = elim (metadata_malloc_lem v size) [
  | inl new ↦
      let same : new.offset ≡ offset = cc (new.result, e) in
      rw (new.recorded, ← same)
        (frees_slot a size new.slot new.offset new.slot_in new.nonzero new.was_free new.fits)
  | inr old ↦ absurd (cc (old.result, e))
]
