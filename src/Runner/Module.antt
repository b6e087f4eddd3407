-- ===== src/Runner/Module.antt =====
-- runtime/fx_wamr_runner.c: `load_builtin_flash_module`, `load_module_bytes` and `unload_module_bytes`, in
-- the board's build (FX_WAMR_NO_AOT, FX_WAMR_FLASH_MODULE_ADDRESS 0x3cd80000). The flash and the file at
-- the path are parameters; pointers are the bytes they point to, `contents` those of `data`.
pub mod Flash
pub mod Loads
pub mod Whole
mod Tests
use esp32_fx.Files.{ReadEvent, read_all}
use esp32_fx.Runner.Resources.{Action, acquire, release, descriptor, input_mapping, input_buffer}
use esp32_fx.Prelude.{
  ℕ, zero, suc, ◌+◌, ◌-◌, ◌*◌, Bool, true, false, not, ◌&&◌, ◌||◌, Option, none, some, List, [],
  ◌∷◌, length, ltb, leb, ◌==◌, if◌then◌else◌, same_text, codes,
}

pub record ModuleBytes : Type 0 where
  pub contents : List ℕ
  pub size : ℕ
  pub mapped : Bool
  pub owned : Bool
  pub xip : Bool
  pub raw : Bool

unfoldable pub no_module : ModuleBytes
no_module = record {
  contents = [];
  size = 0;
  mapped = false;
  owned = false;
  xip = false;
  raw = false;
}

-- What the system answers for one path: the size that `fstat` finds, if it succeeds, the calls of
-- `read` before and after `lseek`, what `mmap` gives, and the test of FX_WAMR_READONLY_MODULE.
pub record ModuleFile : Type 0 where
  pub opens : Bool
  pub st_size : Option ℕ
  pub header_reads : List ReadEvent
  pub rewinds : Bool
  pub readonly_module : Bool
  pub mapping : Option (List ℕ)
  pub allocates : Bool
  pub content_reads : List ReadEvent

-- DEFAULT_FX_MODULE
abbrev pub default_fx_module : List ℕ
default_fx_module = codes "/usr/share/fx/fx-core.wasm"

-- FX_WAMR_FLASH_MODULE_ADDRESS
abbrev pub flash_module_address : ℕ
flash_module_address = 0x3cd80000

-- FX_WAMR_FLASH_PARTITION_BYTES
abbrev pub flash_partition_bytes : ℕ
flash_partition_bytes = 0x200000

-- -1, 0 and 1
pub data FlashResult : Type 0 where
  flash_invalid : FlashResult
  flash_used : ModuleBytes → FlashResult
  not_builtin : FlashResult

module _ (flash : ℕ → ℕ) where
  -- A little-endian word, and the bytes from an address.
  unfoldable pub flash_word : ℕ → ℕ
  flash_word address =
      flash address
      + flash (address + 1) * 0x100
      + flash (address + 2) * 0x10000
      + flash (address + 3) * 0x1000000

  unfoldable pub flash_bytes : ℕ → ℕ → List ℕ
  flash_bytes address zero = []
  flash_bytes address (suc n) = flash address ∷ flash_bytes (address + 1) n

  -- The tests of the header.
  pub flash_header_invalid : Bool
  flash_header_invalid =
      let header_bytes = flash_word (flash_module_address + 8) in
      let wasm_bytes = flash_word (flash_module_address + 12) in
      not (flash_word flash_module_address == 0x4d575846)
      || not (flash_word (flash_module_address + 4) == 1)
      || not (header_bytes == 64)
      || ltb wasm_bytes 8
      || ltb (flash_partition_bytes - header_bytes) wasm_bytes

  unfoldable pub load_builtin_flash_module : List ℕ → FlashResult
  load_builtin_flash_module path =
      let wasm_bytes = flash_word (flash_module_address + 12) in
      let wasm_magic = flash_module_address + flash_word (flash_module_address + 8) in
      if not (same_text path default_fx_module)
      then not_builtin
      else if flash_header_invalid
      then flash_invalid
      else if not (flash_word wasm_magic == 0x6d736100)
      then flash_invalid
      else flash_used (record {
        contents = flash_bytes wasm_magic wasm_bytes;
        size = wasm_bytes;
        mapped = false;
        owned = false;
        xip = true;
        raw = true;
      })

-- What `load_module_bytes` leaves: the result (`false` is -1), the module, and what it did.
abbrev pub Loaded : Type 0
Loaded = Bool × ModuleBytes × List Action

-- The error paths with the descriptor open: `close(fd); return -1;`
unfoldable pub load_failed : List Action → Loaded
load_failed actions = (false, no_module, actions)

-- From `malloc` on.
unfoldable pub load_content : Option (List ℕ × List ReadEvent) → ℕ → Loaded
load_content none size =
    load_failed
      (acquire descriptor ∷ acquire input_buffer ∷ release input_buffer ∷ release descriptor ∷ [])
load_content (some (bytes, left)) size = (
  true,
  record { contents = bytes; size = size; mapped = false; owned = true; xip = false; raw = false },
  acquire descriptor ∷ acquire input_buffer ∷ release descriptor ∷ [],
)

unfoldable pub load_mapping : Option (List ℕ) → ℕ → Loaded
load_mapping none size = load_failed (acquire descriptor ∷ release descriptor ∷ [])
load_mapping (some bytes) size = (
  true,
  record { contents = bytes; size = size; mapped = true; owned = false; xip = true; raw = true },
  acquire descriptor ∷ acquire input_mapping ∷ release descriptor ∷ [],
)

-- Behind the check of the first four bytes. The test of an AOT header does nothing in this build.
unfoldable pub load_opened : ModuleFile → ℕ → Loaded
load_opened file size =
    if file.readonly_module
    then load_mapping file.mapping size
    else if not file.allocates
    then load_failed (acquire descriptor ∷ release descriptor ∷ [])
    else load_content (read_all size file.content_reads) size

unfoldable pub load_header : ModuleFile → ℕ → Option (List ℕ × List ReadEvent) → Loaded
load_header file size none = load_failed (acquire descriptor ∷ release descriptor ∷ [])
load_header file size (some header) =
    if not file.rewinds
    then load_failed (acquire descriptor ∷ release descriptor ∷ [])
    else load_opened file size

-- The file's size is no negative number; beyond UINT32_MAX it is refused.
unfoldable pub load_sized : ModuleFile → Option ℕ → Loaded
load_sized file none = load_failed (acquire descriptor ∷ release descriptor ∷ [])
load_sized file (some size) =
    if size == 0 || ltb 0xffffffff size
    then load_failed (acquire descriptor ∷ release descriptor ∷ [])
    else load_header file size (read_all 4 file.header_reads)

unfoldable pub load_file : ModuleFile → Loaded
load_file file = if not file.opens then load_failed [] else load_sized file file.st_size

unfoldable pub load_unless_flash : ModuleFile → FlashResult → Loaded
load_unless_flash file flash_invalid = load_failed []
load_unless_flash file (flash_used input) = (true, input, [])
load_unless_flash file not_builtin = load_file file

unfoldable pub load_module_bytes : (ℕ → ℕ) → ModuleFile → List ℕ → Loaded
load_module_bytes flash file path = load_unless_flash file (load_builtin_flash_module flash path)

unfoldable pub unload_module_bytes : ModuleBytes → ModuleBytes × List Action
unload_module_bytes input = (
  no_module,
  if input.mapped
      then release input_mapping ∷ []
      else if input.owned
      then release input_buffer ∷ []
      else [],
)
