-- ===== src/Runner/Launch/Starts.antt =====
-- runtime/fx_wamr_runner.c: `main` runs the guest exactly if everything before it succeeds.
use esp32_fx.Runner.Allocator.{WamrAllocator}
use esp32_fx.Runner.Allocator.Setup.{Arena, borrowed, mapped}
use esp32_fx.Runner.Cleanup.{Locals}
use esp32_fx.Runner.Environment.{variables}
use esp32_fx.Runner.Environment.Usable.{variables-IsShort, expected, collect_lem}
use esp32_fx.Runner.Module.{Loaded, load_module_bytes}
use esp32_fx.Runner.Module.Loads.{load_module_bytes-IsLoad}
use esp32_fx.Runner.Reserve.{StreamBuffer, borrowed_stream, mapped_stream}
use esp32_fx.Runner.Launch.{
  Machine, reclaim_file_cache, fail, is_unset, set_catalog, made_entries, make_environment,
  reserve_guards, taken_stream, take_stream, taken_arena, take_arena, no_locals, launch,
}
use esp32_fx.Runner.Launch.Guest.{
  ready_input, ready_guards, ready_stream, ready_arena, launch_ready, Behaves, fail-Behaves,
  preceded-Behaves, guard-Behaves, load_input-Behaves,
}
use esp32_fx.Runner.Launch.Balance.{IsFlashed}
use esp32_fx.Runner.Resources.{guest_runs}
use esp32_fx.Prelude.{
  ℕ, suc, Bool, true, false, not, ◌&&◌, Option, none, some, List, [], ◌∷◌, ◌≡◌, refl, if◌then◌else◌,
  codes, inl, inr, Bool-cases,
}

-- `malloc` serves the few kilobytes of the environment.
module _ (machine : Machine) (memory : (size : ℕ) → machine.has_memory size ≡ true)
    (flashed : IsFlashed machine) where
  set_catalog-Behaves :
      (path : List ℕ) (l : Locals)
      → l.owned_env ≡ expected machine.getenv variables
      → Behaves machine (ready_input machine path) (set_catalog machine path l)
  unfolding set_catalog
  set_catalog-Behaves path l e =
      let loaded : Loaded = load_module_bytes machine.flash (machine.module_file path) path in
      let (runs, fails, marked, quiet) =
        load_module_bytes-IsLoad machine.flash (machine.module_file path) path flashed in
      elim (Bool-cases (
        is_unset (machine.getenv (codes "FX_WAMR_LOCAL_MODEL_CATALOG"))
        && not machine.setenv_succeeds)) [
          | inl refused ↦ rw refused (fail-Behaves machine l)
          | inr goes_on ↦ rw goes_on (load_input-Behaves machine l loaded quiet e)
        ]

  quiet-made : (index : ℕ) (entries : List (List ℕ)) → guest_runs (made_entries index entries) ≡ []
  unfolding made_entries guest_runs
  quiet-made index [] = refl
  quiet-made index (entry ∷ entries) = quiet-made (suc index) entries

  make_environment-Behaves :
      (path : List ℕ) (l : Locals) (made : Bool × List (List ℕ)) (all : Bool)
      → made.0 ≡ all
      → (all ≡ true → made.1 ≡ expected machine.getenv variables)
      → Behaves machine (all && ready_input machine path) (make_environment machine path l made)
  unfolding make_environment
  make_environment-Behaves path l (ok, owned) true e is_expected =
      let next : Locals = record l { owned_env = owned } in
      preceded-Behaves machine (ready_input machine path) _ _ (quiet-made 0 owned)
        (rw e (set_catalog-Behaves path next (is_expected refl)))
  make_environment-Behaves path l (ok, owned) false e is_expected =
      let next : Locals = record l { owned_env = owned } in
      preceded-Behaves machine false (made_entries 0 owned)
        (if ok then set_catalog machine path next else fail next) (quiet-made 0 owned)
        (rw e (fail-Behaves machine next))

  reserve_guards-Behaves :
      (path : List ℕ) (l : Locals)
      → Behaves machine (ready_guards machine path) (reserve_guards machine path l)
  unfolding reserve_guards guest_runs
  reserve_guards-Behaves path l =
      let (ok, all) =
        collect_lem machine.getenv machine.has_memory memory variables [] variables-IsShort in
      guard-Behaves machine machine.prepares_guards _ _ _ (fail-Behaves machine l) (
        preceded-Behaves machine _ _ _ refl
          (make_environment-Behaves path (record l { guards_prepared = true }) _ _ ok all))

  take_stream-Behaves :
      (path : List ℕ) (l : Locals) (stream : Option StreamBuffer)
      → Behaves machine (ready_stream machine path stream) (take_stream machine path l stream)
  unfolding take_stream taken_stream guest_runs
  take_stream-Behaves path l none = fail-Behaves machine l
  take_stream-Behaves path l (some (borrowed_stream address)) =
      preceded-Behaves machine _ _ _ refl
        (reserve_guards-Behaves path (record l { stream = some (borrowed_stream address) }))
  take_stream-Behaves path l (some mapped_stream) =
      preceded-Behaves machine _ _ _ refl
        (reserve_guards-Behaves path (record l { stream = some mapped_stream }))

  take_arena-Behaves :
      (path : List ℕ) (l : Locals) (made : Option (Arena × WamrAllocator))
      → Behaves machine (ready_arena machine path made) (take_arena machine path l made)
  unfolding take_arena taken_arena guest_runs
  take_arena-Behaves path l none = fail-Behaves machine l
  take_arena-Behaves path l (some (borrowed address, allocator)) =
      preceded-Behaves machine _ _ _ refl
        (take_stream-Behaves path (record l { arena = some (borrowed address) }) _)
  take_arena-Behaves path l (some (mapped, allocator)) =
      preceded-Behaves machine _ _ _ refl
        (take_stream-Behaves path (record l { arena = some mapped }) _)

  quiet-reclaim : (write : Option ℕ) → guest_runs (reclaim_file_cache write).1 ≡ []
  unfolding reclaim_file_cache guest_runs
  quiet-reclaim none = refl
  quiet-reclaim (some written) = refl

  -- If memory lasts for the environment, `main` runs the guest once if every call before it succeeds and
  -- both required variables are usable: with exactly the usable variables as its environment and the page
  -- limit that was read; its exit code is the guest's. In every other case the guest is never run and the
  -- exit code is EXIT_FAILURE.
  pub launch-Behaves :
      (path : List ℕ) → Behaves machine (launch_ready machine path) (launch machine path)
  unfolding launch
  launch-Behaves path = preceded-Behaves machine _ _ _ (quiet-reclaim machine.cache_write) (
      guard-Behaves machine (reclaim_file_cache machine.cache_write).0 _ _ _
        (fail-Behaves machine no_locals) (take_arena-Behaves path no_locals _))
