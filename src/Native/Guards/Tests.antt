-- ===== src/Native/Guards/Tests.antt =====
-- The guards on a kernel that counts its mappings.
use esp32_fx.Native.Guards.Laws.{BothOrNone, prepare_guards_lem}
use esp32_fx.Native.Guards.{no_guard, prepare_guards}
use esp32_fx.Prelude.{ℕ, ◌+◌, ◌≡◌, refl, Bool, true, Option, none, some, ltb, if◌then◌else◌}

-- One mapping succeeds.
mmap_once : ℕ → ℕ → Option ℕ × ℕ
mmap_once size count = (if ltb count 1 then some 4096 else none, count + 1)

munmap_always : ℕ → ℕ → ℕ → Bool × ℕ
munmap_always address size count = (true, count)

munmap_always-succeeds : (a n k : ℕ) → (munmap_always a n k).0 ≡ true
unfolding munmap_always
munmap_always-succeeds a n k = refl

prepare_guards_lem_example : BothOrNone 65536 32768 (
    prepare_guards mmap_once munmap_always 65536 32768
      (record { shell_guard = no_guard; test_guard = no_guard; kernel = 0 }))
prepare_guards_lem_example =
    prepare_guards_lem mmap_once munmap_always munmap_always-succeeds 65536 32768
      (record { shell_guard = no_guard; test_guard = no_guard; kernel = 0 }) refl refl
