-- ===== src/Native/Guards/Laws.antt =====
-- The guards are held both or not at all.
use esp32_fx.Native.Guards.{ContiguityGuard, Guards, acquire_guard, release_guard, prepare_guards}
use esp32_fx.Prelude.{
  ℕ, ◌≡◌, ◌⊎◌, inl, inr, refl, Bool, true, false, Option, none, some, Option-cases,
}

-- A guard that holds a block of the given size.
pub record Holds (size : ℕ) (guard : ContiguityGuard) : Type 0 where
  pub address : ℕ
  pub mapped : guard.mapping ≡ some address
  pub sized : guard.length ≡ size

-- The outcome of acquiring both.
abbrev pub BothOrNone : {Kernel : Type 0} → ℕ → ℕ → Bool × Guards Kernel → Type 0
BothOrNone shell_bytes test_bytes (ok, g) =
    ((ok ≡ true) × Holds shell_bytes g.shell_guard × Holds test_bytes g.test_guard)
    ⊎ ((ok ≡ false) × (g.shell_guard.mapping ≡ none) × (g.test_guard.mapping ≡ none))

module _ {Kernel : Type 0} (mmap : ℕ → Kernel → Option ℕ × Kernel)
    (munmap : ℕ → ℕ → Kernel → Bool × Kernel)
    (unmaps : (address size : ℕ) (k : Kernel) → (munmap address size k).0 ≡ true)
    (shell_bytes test_bytes : ℕ) where
  acquire_guard_lem :
      (size : ℕ) (guard : ContiguityGuard) (k : Kernel)
      → guard.mapping ≡ none
      → let out = acquire_guard mmap munmap size guard k in
        ((out.0 ≡ true) × Holds size out.1) ⊎ ((out.0 ≡ false) × (out.1.mapping ≡ none))
  unfolding acquire_guard
  acquire_guard_lem size guard k e = elim (Option-cases (mmap size k).0) [
    | inl f ↦ inr (rw (e, acquire_guard, f) (refl, e))
    | inr (a, f) ↦
        inl (rw (e, acquire_guard, f) (refl, record { address = a; mapped = refl; sized = refl }))
  ]

  release_guard_lem :
      (size : ℕ) (guard : ContiguityGuard) (k : Kernel)
      → Holds size guard
      → (release_guard mmap munmap guard k).1.mapping ≡ none
  unfolding release_guard
  release_guard_lem size guard k h =
      rw (h.mapped, release_guard, unmaps h.address guard.length k) refl

  -- If unmapping never fails, then starting with no block held the guards are acquired both, each
  -- with its size, or the call fails and none is held.
  pub prepare_guards_lem :
      (g : Guards Kernel)
      → g.shell_guard.mapping ≡ none
      → g.test_guard.mapping ≡ none
      → BothOrNone shell_bytes test_bytes (prepare_guards mmap munmap shell_bytes test_bytes g)
  unfolding prepare_guards
  prepare_guards_lem g es et =
      let first = acquire_guard mmap munmap shell_bytes g.shell_guard g.kernel in
      let second = acquire_guard mmap munmap test_bytes g.test_guard first.2 in
      elim (acquire_guard_lem shell_bytes g.shell_guard g.kernel es) [
        | inr (failed, nothing) ↦ rw failed (inr (refl, nothing, et))
        | inl (ok, shell) ↦ elim (acquire_guard_lem test_bytes g.test_guard first.2 et) [
          | inl (ok', test) ↦ rw (ok, ok') (inl (refl, shell, test))
          | inr (failed, nothing) ↦
              rw (ok, failed)
                (inr (refl, release_guard_lem shell_bytes first.1 second.2 shell, nothing))
        ]
      ]
