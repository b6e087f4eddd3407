-- ===== src/Runner/Module/Flash.antt =====
-- runtime/fx_wamr_runner.c: what `load_builtin_flash_module` says of the path and of the flash.
use esp32_fx.Runner.Module.{
  FlashResult, flash_invalid, flash_used, not_builtin, flash_word, flash_bytes,
  flash_header_invalid, load_builtin_flash_module, default_fx_module, flash_module_address,
  flash_partition_bytes,
}
use esp32_fx.Prelude.{
  ℕ, suc, ◌+◌, ◌*◌, ◌≤◌, ◌<◌, ◌≡◌, ◌≢◌, refl, ap, ◌∙◌, inl, inr, true, false, List, [], ◌∷◌, take,
  ◌==◌, same_text, same_text_eq, same_text_refl, arith, Bool-cases,
}

-- The partition holds a module of this size: the header's magic, version, own length and size of the module,
-- a module that fits the partition, and the magic of Wasm at its start.
abbrev pub IsImage : (ℕ → ℕ) → ℕ → Type 0
IsImage flash size =
    (flash_word flash flash_module_address ≡ 0x4d575846)
    × (flash_word flash (flash_module_address + 4) ≡ 1)
    × (flash_word flash (flash_module_address + 8) ≡ 64)
    × (flash_word flash (flash_module_address + 12) ≡ size)
    × (8 ≤ size)
    × (64 + size ≤ flash_partition_bytes)
    × (flash_word flash (flash_module_address + 64) ≡ 0x6d736100)

-- What a result of `load_builtin_flash_module` says of the path and the flash.
abbrev pub IsFlash : (ℕ → ℕ) → List ℕ → FlashResult → Type 0
IsFlash flash path flash_invalid =
    (path ≡ default_fx_module) × ((size : ℕ) → IsImage flash size → ⊥)
IsFlash flash path (flash_used input) =
    (path ≡ default_fx_module)
    × (input ≡ record {
      contents = flash_bytes flash (flash_module_address + 64) input.size;
      size = input.size;
      mapped = false;
      owned = false;
      xip = true;
      raw = true;
    })
    × IsImage flash input.size
    × (take 4 input.contents ≡ 0 ∷ 0x61 ∷ 0x73 ∷ 0x6d ∷ [])
IsFlash flash path not_builtin = path ≢ default_fx_module

magic_bytes :
    (a b c d : ℕ)
    → a < 256
    → b < 256
    → c < 256
    → d < 256
    → a + b * 0x100 + c * 0x10000 + d * 0x1000000 ≡ 0x6d736100
    → (a ≡ 0) × (b ≡ 0x61) × (c ≡ 0x73) × (d ≡ 0x6d)
magic_bytes a b c d ha hb hc hd e = ground (arith)

first_four :
    (flash : ℕ → ℕ) (address n : ℕ)
    → 8 ≤ n
    → take 4 (flash_bytes flash address n)
      ≡ flash address ∷ flash (address + 1) ∷ flash (address + 2) ∷ flash (address + 3) ∷ []
unfolding flash_bytes
first_four flash address (suc (suc (suc (suc n)))) h =
    let two : address + 1 + 1 ≡ address + 2 = omega arith in
    let three : address + 1 + 1 + 1 ≡ address + 3 = omega arith in cc (ap flash two, ap flash three)
first_four flash address n h = absurd (omega arith)

IsImage-valid : (flash : ℕ → ℕ) (size : ℕ) → IsImage flash size → flash_header_invalid flash ≡ false
unfolding flash_header_invalid
IsImage-valid flash size (magic, version, header, same, long, fits, wasm) =
    ground (arith, magic, version, header, same, long, fits)

header-IsImage :
    (flash : ℕ → ℕ)
    → flash_header_invalid flash ≡ false
    → flash_word flash (flash_module_address + 64) ≡ 0x6d736100
    → IsImage flash (flash_word flash (flash_module_address + 12))
unfolding flash_header_invalid
header-IsImage flash e wasm = (
  ground (arith, e),
  ground (arith, e),
  ground (arith, e),
  refl,
  ground (arith, e),
  ground (arith, e),
  wasm,
)

header_length :
    (flash : ℕ → ℕ)
    → flash_header_invalid flash ≡ false
    → flash_word flash (flash_module_address + 8) ≡ 64
unfolding flash_header_invalid
header_length flash e = ground (arith, e)

image-IsFlash :
    (flash : ℕ → ℕ) (path : List ℕ) (size : ℕ)
    → ((address : ℕ) → flash address < 256)
    → path ≡ default_fx_module
    → IsImage flash size
    → IsFlash flash path (
        flash_used (record {
          contents = flash_bytes flash (flash_module_address + 64) size;
          size = size;
          mapped = false;
          owned = false;
          xip = true;
          raw = true;
        }))
unfolding flash_word
image-IsFlash flash path size bytes same image =
    let at : ℕ = flash_module_address + 64 in
    let (a, b, c, d) =
      magic_bytes (flash at) (flash (at + 1)) (flash (at + 2)) (flash (at + 3)) (bytes at)
        (bytes (at + 1)) (bytes (at + 2)) (bytes (at + 3)) image.6 in
    (same, refl, image, first_four flash at size image.4 ∙ cc (a, b, c, d))

-- The built-in path, and only it, is served from the flash: with the module of the partition, its bytes
-- exactly, if the partition holds one (the header's magic, version, length and size are right, the module
-- lies inside the partition, and it begins with the magic of Wasm), and not at all if it holds none.
pub load_builtin_flash_module-IsFlash :
    (flash : ℕ → ℕ) (path : List ℕ)
    → ((address : ℕ) → flash address < 256)
    → IsFlash flash path (load_builtin_flash_module flash path)
unfolding load_builtin_flash_module
load_builtin_flash_module-IsFlash flash path bytes =
    elim (Bool-cases (same_text path default_fx_module)) [
      | inr other ↦ rw other (λ same. absurd (cc (other, same, same_text_refl default_fx_module)))
      | inl same ↦ rw same (elim (Bool-cases (flash_header_invalid flash)) [
        | inl bad ↦ rw bad (
          same_text_eq path default_fx_module same,
          λ size image. absurd (cc (bad, IsImage-valid flash size image)),
        )
        | inr good ↦
            rw (good, header_length flash good)
              (elim (Bool-cases (flash_word flash (flash_module_address + 64) == 0x6d736100)) [
                | inl magic ↦ rw magic (
                    image-IsFlash flash path _ bytes (same_text_eq path default_fx_module same)
                      (header-IsImage flash good (ground (arith, magic))))
                | inr other ↦ rw other (
                  same_text_eq path default_fx_module same,
                  λ size image. absurd (ground (arith, other, image.6)),
                )
              ])
      ])
    ]
