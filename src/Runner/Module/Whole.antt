-- ===== src/Runner/Module/Whole.antt =====
-- runtime/fx_wamr_runner.c: what `load_module_bytes` reads.
use esp32_fx.Files.Content.{Brings, read_all-Reads}
use esp32_fx.Runner.Module.{
  ModuleFile, load_builtin_flash_module, Loaded, load_content, load_mapping, load_opened,
  load_header, load_sized, load_file, load_unless_flash, load_module_bytes, default_fx_module,
}
use esp32_fx.Prelude.{
  ℕ, ◌≤◌, ◌≡◌, ◌≢◌, refl, inl, inr, true, false, some, List, length, ltb, ◌==◌, same_text,
  same_text_eq, arith, Bool-cases, take_all,
}

-- Served by a system that has room, a file comes into memory whole.
abbrev pub Serves : ModuleFile → List ℕ → Type 0
Serves file content =
    (file.opens ≡ true)
    × (file.st_size ≡ some (length content))
    × Brings file.header_reads content
    × (file.rewinds ≡ true)
    × (file.mapping ≡ some content)
    × (file.allocates ≡ true)
    × Brings file.content_reads content

abbrev pub HasWhole : List ℕ → Loaded → Type 0
HasWhole content loaded =
    (loaded.0 ≡ true) × (loaded.1.contents ≡ content) × (loaded.1.size ≡ length content)

load_opened-HasWhole :
    (file : ModuleFile) (content : List ℕ)
    → Serves file content
    → HasWhole content (load_opened file (length content))
unfolding load_opened load_mapping load_content
load_opened-HasWhole file content (opens, sized, header, rewinds, maps, allocates, reads) =
    let (left, found, next) =
      read_all-Reads (length content) file.content_reads content reads (omega arith) in
    elim (Bool-cases file.readonly_module) [
      | inl e ↦ rw (e, maps) (refl, refl, refl)
      | inr e ↦
          rw (e, allocates, found) (refl, take_all (length content) content (omega arith), refl)
    ]

-- A module file of 4 bytes to 4 GiB is loaded whole, whether it is mapped or read into memory, and
-- however the kernel cuts it, if the path is not the built-in one and the system has room.
pub load_module_bytes-HasWhole :
    (flash : ℕ → ℕ) (file : ModuleFile) (path content : List ℕ)
    → path ≢ default_fx_module
    → Serves file content
    → 4 ≤ length content
    → length content ≤ 0xffffffff
    → HasWhole content (load_module_bytes flash file path)
unfolding load_module_bytes load_builtin_flash_module load_unless_flash load_file load_sized
    load_header load_opened
load_module_bytes-HasWhole flash file path content other
      (opens, sized, header, rewinds, maps, allocates, reads) long fits =
    let (left, found, next) = read_all-Reads 4 file.header_reads content header long in
    let nonzero : (length content == 0) ≡ false = ground (arith, long) in
    let below : ltb 0xffffffff (length content) ≡ false = ground (arith, fits) in
    elim (Bool-cases (same_text path default_fx_module)) [
      | inl same ↦ absurd (other (same_text_eq path default_fx_module same))
      | inr differs ↦
          rw (differs, opens, sized, nonzero, below, found, rewinds)
            (load_opened-HasWhole file content
              (opens, sized, header, rewinds, maps, allocates, reads))
    ]
