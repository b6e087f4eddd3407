-- ===== src/Runner/Allocator/Valid.antt =====
-- The invariant of the allocator: both blocks lie in the metadata arena, at multiples of 8, and do
-- not meet; the guest's memory is used up to its capacity at most.
use esp32_fx.Runner.Allocator.{MetadataBlock, WamrAllocator, metadata_bytes}
use esp32_fx.Prelude.{◌+◌, ◌%◌, ◌≤◌, ◌<◌, ◌≡◌, ◌⊎◌, length, word}

-- A free slot keeps its last offset.
pub record IsValidBlock (b : MetadataBlock) : Type 0 where
  pub fits : b.offset + b.size ≤ metadata_bytes
  pub aligned : b.offset % 8 ≡ 0

-- No byte is in both blocks.
abbrev pub Disjoint : MetadataBlock → MetadataBlock → Type 0
Disjoint b c =
    (b.size ≡ 0) ⊎ (c.size ≡ 0) ⊎ (b.offset + b.size ≤ c.offset) ⊎ (c.offset + c.size ≤ b.offset)

pub record IsValid (a : WamrAllocator) : Type 0 where
  pub valid0 : IsValidBlock a.block0
  pub valid1 : IsValidBlock a.block1
  pub disjoint : Disjoint a.block0 a.block1
  pub arena : length a.linear_memory ≡ a.capacity
  pub capacity_word : a.capacity < word
  pub used_in : a.used ≤ a.capacity
