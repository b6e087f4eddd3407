-- ===== src/Runner/Module/Tests.antt =====
-- Module files, and the header of the flash partition, at concrete inputs.
use esp32_fx.Files.{chunk_ready, interrupted, read_all}
use esp32_fx.Runner.Module.{
  ModuleFile, flash_word, load_builtin_flash_module, load_unless_flash, load_file, load_sized,
  load_header, load_opened, load_content, load_failed, load_module_bytes, default_fx_module,
  flash_module_address,
}
use esp32_fx.Runner.Module.Flash.{IsFlash, load_builtin_flash_module-IsFlash}
use esp32_fx.Runner.Module.Whole.{Serves, HasWhole, load_module_bytes-HasWhole}
use esp32_fx.Prelude.{
  ℕ, ◌-◌, ◌+◌, ◌≡◌, ◌≢◌, ◌<◌, refl, ap, zero, suc, drop, All, Bool-cases, inl, inr, true, false,
  some, List, [], ◌∷◌, get_or, arith, same_text, codes, ltb, if◌then◌else◌,
}

abbrev wasm : List ℕ
wasm = 0 ∷ 0x61 ∷ 0x73 ∷ 0x6d ∷ 1 ∷ 0 ∷ 0 ∷ 0 ∷ []

abbrev served : ModuleFile
served = record {
  opens = true;
  st_size = some 8;
  header_reads =
      interrupted
      ∷ chunk_ready (0 ∷ 0x61 ∷ [])
      ∷ chunk_ready (0x73 ∷ 0x6d ∷ 1 ∷ 0 ∷ 0 ∷ 0 ∷ [])
      ∷ [];
  rewinds = true;
  readonly_module = false;
  mapping = some wasm;
  allocates = true;
  content_reads = chunk_ready (0 ∷ []) ∷ chunk_ready (0x61 ∷ 0x73 ∷ 0x6d ∷ 1 ∷ 0 ∷ 0 ∷ 0 ∷ []) ∷ [];
}

abbrev card : List ℕ
card = codes "/mnt/fx.wasm"

card-default : card ≢ default_fx_module
card-default e = absurd (omega (arith, ap (λ path. get_or path 1 0) e))

-- A partition with an image of 12 bytes.
abbrev image : List ℕ
image = 0x46 ∷ 0x58 ∷ 0x57 ∷ 0x4d ∷ 1 ∷ 0 ∷ 0 ∷ 0 ∷ 64 ∷ 0 ∷ 0 ∷ 0 ∷ 12 ∷ []

abbrev flash : ℕ → ℕ
flash address =
    if ltb address (flash_module_address + 64)
    then get_or image (address - flash_module_address) 0
    else get_or wasm (address - (flash_module_address + 64)) 0

flash_word_test : flash_word flash flash_module_address ≡ 0x4d575846
unfolding flash_word
flash_word_test = refl

bytes_small : (xs : List ℕ) → All (λ b. b < 256) xs → (n : ℕ) → get_or xs n 0 < 256
bytes_small [] all n = omega arith
bytes_small (x ∷ xs) all zero = all.0
bytes_small (x ∷ xs) all (suc n) = bytes_small xs all.1 n

flash_small : (address : ℕ) → flash address < 256
flash_small address = elim (Bool-cases (ltb address (flash_module_address + 64))) [
  | inl e ↦ rw e (bytes_small image (omega arith) _)
  | inr e ↦ rw e (bytes_small wasm (omega arith) _)
]

load_builtin_flash_module-IsFlash_example :
    IsFlash flash default_fx_module (load_builtin_flash_module flash default_fx_module)
load_builtin_flash_module-IsFlash_example =
    load_builtin_flash_module-IsFlash flash default_fx_module flash_small

served-Serves : Serves served wasm
served-Serves = (
  refl,
  refl,
  (omega arith, (drop 2 wasm, refl, (omega arith, ([], refl, refl)))),
  refl,
  refl,
  refl,
  (omega arith, (drop 1 wasm, refl, (omega arith, ([], refl, refl)))),
)

load_module_bytes-HasWhole_example : HasWhole wasm (load_module_bytes flash served card)
load_module_bytes-HasWhole_example =
    load_module_bytes-HasWhole flash served card wasm card-default served-Serves (omega arith)
      (omega arith)

-- A file that ends early is refused, and what was taken for it is given back.
load_failure :
    (load_module_bytes flash (record served { content_reads = chunk_ready (0 ∷ []) ∷ [] }) card).0
    ≡ false
unfolding load_module_bytes load_builtin_flash_module load_unless_flash load_file load_sized
    load_header load_opened load_content load_failed read_all same_text
load_failure = refl
