-- ===== src/Native/Guards.antt =====
-- runtime/fx_wamr_native.c: the two contiguity guards, blocks of memory that are held in reserve
-- for the shell and the test helper, in the build that has both. The kernel's `mmap` and `munmap`
-- are parameters over a state of the kernel.
pub mod Laws
mod Tests
use esp32_fx.Prelude.{ℕ, Bool, true, false, Option, none, some, ◌==◌, if◌then◌else◌}

pub record ContiguityGuard : Type 0 where
  pub mapping : Option ℕ
  pub length : ℕ

-- What `memset` leaves.
abbrev pub no_guard : ContiguityGuard
no_guard = record { mapping = none; length = 0 }

-- The static variables and the kernel.
pub record Guards (Kernel : Type 0) : Type 0 where
  pub shell_guard : ContiguityGuard
  pub test_guard : ContiguityGuard
  pub kernel : Kernel

module _ {Kernel : Type 0} (mmap : ℕ → Kernel → Option ℕ × Kernel)
    (munmap : ℕ → ℕ → Kernel → Bool × Kernel) where
  -- `true` is the result 0, `false` the result -1, here and below.
  pub acquire_guard : ℕ → ContiguityGuard → Kernel → Bool × ContiguityGuard × Kernel
  acquire_guard length guard kernel = elim guard.mapping [
    | some mapping ↦ (guard.length == length, guard, kernel)
    | none ↦
        let (mapped, kernel') = mmap length kernel in
        elim mapped [
          | none ↦ (false, guard, kernel')
          | some mapping ↦ (true, record { mapping = some mapping; length = length }, kernel')
        ]
  ]

  pub release_guard : ContiguityGuard → Kernel → Bool × ContiguityGuard × Kernel
  release_guard guard kernel = elim guard.mapping [
    | none ↦ (false, guard, kernel)
    | some mapping ↦
        let (ok, kernel') = munmap mapping guard.length kernel in
        if ok then (true, record guard { mapping = none }, kernel') else (false, guard, kernel')
  ]

  release_if_held : ContiguityGuard → Kernel → Kernel
  release_if_held guard kernel = elim guard.mapping [
    | none ↦ kernel
    | some mapping ↦ (release_guard guard kernel).2
  ]

  -- `fx_wamr_release_low_memory_guards`: the test guard first, and both are forgotten.
  release_guards : Guards Kernel → Guards Kernel
  release_guards g = record {
    shell_guard = no_guard;
    test_guard = no_guard;
    kernel = release_if_held g.shell_guard (release_if_held g.test_guard g.kernel);
  }

  module _ (shell_bytes test_bytes : ℕ) where
    -- `fx_wamr_prepare_low_memory_guards` and `fx_wamr_rearm_test_contiguity_guard`, whose bodies are
    -- the same in this build.
    pub prepare_guards : Guards Kernel → Bool × Guards Kernel
    prepare_guards g =
        let (shell_ok, shell, k1) = acquire_guard shell_bytes g.shell_guard g.kernel in
        let (test_ok, test, k2) = acquire_guard test_bytes g.test_guard k1 in
        let (released, shell', k3) = release_guard shell k2 in
        if shell_ok
        then (if test_ok
            then (true, record { shell_guard = shell; test_guard = test; kernel = k2 })
            else (false, record { shell_guard = shell'; test_guard = test; kernel = k3 }))
        else (false, record { shell_guard = shell; test_guard = g.test_guard; kernel = k1 })

    -- `fx_wamr_lend_test_contiguity_guard`
    pub lend_guards : Guards Kernel → Bool × Guards Kernel
    lend_guards g =
        let (shell_ok, shell, k1) = release_guard g.shell_guard g.kernel in
        let (test_ok, test, k2) = release_guard g.test_guard k1 in
        let (acquired, shell', k3) = acquire_guard shell_bytes shell k2 in
        if shell_ok
        then (if test_ok
            then (true, record { shell_guard = shell; test_guard = test; kernel = k2 })
            else (false, record { shell_guard = shell'; test_guard = test; kernel = k3 }))
        else (false, record { shell_guard = shell; test_guard = g.test_guard; kernel = k1 })
