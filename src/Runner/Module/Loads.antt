-- ===== src/Runner/Module/Loads.antt =====
-- runtime/fx_wamr_runner.c: what `load_module_bytes` holds when it is done.
use esp32_fx.Runner.Module.Flash.{IsFlash, load_builtin_flash_module-IsFlash}
use esp32_fx.Files.{ReadEvent, read_all}
use esp32_fx.Runner.Resources.{
  Action, acquire, release, descriptor, Held, run, guest_runs, step, holds, put, supported, in_use,
  given_back,
}
use esp32_fx.Runner.Module.{
  ModuleBytes, no_module, ModuleFile, FlashResult, flash_invalid, flash_used, not_builtin, Loaded,
  load_failed, load_content, load_mapping, load_opened, load_header, load_sized, load_file,
  load_unless_flash, load_module_bytes,
}
use esp32_fx.Prelude.{
  ℕ, ◌<◌, ◌≡◌, refl, sym, subst, Bool, true, false, not, ◌&&◌, ◌||◌, Option, none, some, List, [],
  ◌∷◌, ◌++◌, ltb, ◌==◌, if◌then◌else◌,
}

-- Nothing of a module or its source is held.
abbrev pub without_input : Held → Held
without_input held = record held {
  descriptor_held = false;
  mapping_held = false;
  buffer_held = false;
  module_held = false;
}

abbrev pub with_input : Held → ModuleBytes → Held
with_input held input = record held {
  descriptor_held = false;
  module_held = false;
  mapping_held = input.mapped;
  buffer_held = not input.mapped && input.owned;
}

-- A mapped source is marked as read-only for WAMR.
abbrev pub IsMarked : ModuleBytes → Type 0
IsMarked input = (input.mapped && not input.xip) ≡ false

-- What was done is right whatever else is held, and leaves the module's source; a failure leaves none. The
-- guest is not run.
abbrev pub IsLoad : Loaded → Type 0
IsLoad loaded =
    ((held : Held) (rest : List Action)
      → run (loaded.2 ++ rest) (without_input held) ≡ run rest (with_input held loaded.1))
    × (loaded.0 ≡ false → loaded.1 ≡ no_module)
    × IsMarked loaded.1
    × (guest_runs loaded.2 ≡ [])

-- Before the descriptor is open, and with it.
load_failed-IsLoad :
    IsLoad (load_failed []) × IsLoad (load_failed (acquire descriptor ∷ release descriptor ∷ []))
unfolding load_failed no_module run step holds supported put in_use given_back guest_runs
load_failed-IsLoad =
    ((λ held rest. refl, λ _. refl, refl, refl), (λ held rest. refl, λ _. refl, refl, refl))

load_content-IsLoad :
    (out : Option (List ℕ × List ReadEvent)) (size : ℕ) → IsLoad (load_content out size)
unfolding load_content load_failed no_module run step holds supported put in_use given_back
    guest_runs
load_content-IsLoad none size = (λ held rest. refl, λ _. refl, refl, refl)
load_content-IsLoad (some out) size = (λ held rest. refl, λ e. absurd (cc (e)), refl, refl)

load_mapping-IsLoad : (out : Option (List ℕ)) (size : ℕ) → IsLoad (load_mapping out size)
unfolding load_mapping load_failed no_module run step holds supported put in_use given_back
    guest_runs
load_mapping-IsLoad none size = (λ held rest. refl, λ _. refl, refl, refl)
load_mapping-IsLoad (some out) size = (λ held rest. refl, λ e. absurd (cc (e)), refl, refl)

if-IsLoad : (b : Bool) (x y : Loaded) → IsLoad x → IsLoad y → IsLoad (if b then x else y)
if-IsLoad true x y hx hy = hx
if-IsLoad false x y hx hy = hy

load_opened-IsLoad : (file : ModuleFile) (size : ℕ) → IsLoad (load_opened file size)
unfolding load_opened
load_opened-IsLoad file size =
    if-IsLoad file.readonly_module _ _ (load_mapping-IsLoad file.mapping size) (
      if-IsLoad (not file.allocates) _ _ load_failed-IsLoad.1
        (load_content-IsLoad (read_all size file.content_reads) size))

load_header-IsLoad :
    (file : ModuleFile) (size : ℕ) (out : Option (List ℕ × List ReadEvent))
    → IsLoad (load_header file size out)
unfolding load_header
load_header-IsLoad file size none = load_failed-IsLoad.1
load_header-IsLoad file size (some out) =
    if-IsLoad (not file.rewinds) _ _ load_failed-IsLoad.1 (load_opened-IsLoad file size)

load_sized-IsLoad : (file : ModuleFile) (size : Option ℕ) → IsLoad (load_sized file size)
unfolding load_sized
load_sized-IsLoad file none = load_failed-IsLoad.1
load_sized-IsLoad file (some size) =
    if-IsLoad (size == 0 || ltb 0xffffffff size) _ _ load_failed-IsLoad.1
      (load_header-IsLoad file size (read_all 4 file.header_reads))

load_file-IsLoad : (file : ModuleFile) → IsLoad (load_file file)
unfolding load_file
load_file-IsLoad file =
    if-IsLoad (not file.opens) _ _ load_failed-IsLoad.0 (load_sized-IsLoad file file.st_size)

flash-IsLoad :
    (flash : ℕ → ℕ) (path : List ℕ) (result : FlashResult)
    → IsFlash flash path result
    → (file : ModuleFile) → IsLoad (load_unless_flash file result)
unfolding load_unless_flash guest_runs
flash-IsLoad flash path flash_invalid is file = load_failed-IsLoad.0
flash-IsLoad flash path not_builtin is file = load_file-IsLoad file
flash-IsLoad flash path (flash_used input) (same, whole, image, magic) file = (
  λ held rest.
      subst (λ i. run rest (without_input held) ≡ run rest (with_input held i)) (sym whole) refl,
  λ e. absurd (cc e),
  subst IsMarked (sym whole) refl,
  refl,
)

pub load_module_bytes-IsLoad :
    (flash : ℕ → ℕ) (file : ModuleFile) (path : List ℕ)
    → ((address : ℕ) → flash address < 256)
    → IsLoad (load_module_bytes flash file path)
unfolding load_module_bytes
load_module_bytes-IsLoad flash file path bytes =
    flash-IsLoad flash path _ (load_builtin_flash_module-IsFlash flash path bytes) file
