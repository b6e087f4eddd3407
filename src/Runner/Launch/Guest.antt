-- ===== src/Runner/Launch/Guest.antt =====
-- runtime/fx_wamr_runner.c: when the launcher runs the guest, and with what.
use esp32_fx.Runner.Allocator.{WamrAllocator}
use esp32_fx.Runner.Allocator.Setup.{Arena, init_wamr_allocator, linear_reserve_bytes}
use esp32_fx.Runner.Cleanup.{Locals}
use esp32_fx.Runner.Cleanup.Quiet.{quiet-append, quiet-unload, guest_runs-cleanup}
use esp32_fx.Runner.Environment.{variables}
use esp32_fx.Runner.Environment.Usable.{complete, expected}
use esp32_fx.Runner.Module.{Loaded, load_module_bytes, unload_module_bytes}
use esp32_fx.Runner.Reserve.{StreamBuffer, linear_start, reserve_stream, memory_pages}
use esp32_fx.Runner.Launch.{
  Machine, reclaim_file_cache, Exit, leave, fail, preceded, execute_main, run_instance, instantiate,
  release_source, load_guest, start_runtime, start_native, load_input, is_unset,
}
use esp32_fx.Runner.Resources.{Action, guest_runs}
use esp32_fx.Prelude.{
  ℕ, Bool, true, false, not, ◌&&◌, ◌||◌, Option, none, some, List, [], ◌∷◌, ◌≡◌, refl, ap, ◌∙◌,
  if◌then◌else◌, codes, inl, inr, Bool-cases,
}

-- The page limit of a launch, if it is not refused.
abbrev pub page_limit : Machine → Option ℕ
page_limit machine =
    memory_pages machine.strtoul_decimal linear_reserve_bytes
      (machine.getenv (codes "FX_WAMR_MAX_PAGES"))

abbrev pub guest_code : Option ℕ → ℕ
guest_code none = 1
guest_code (some code) = code

-- Every call before the guest's `main` succeeds.
abbrev pub ready_instance : Machine → Option ℕ → Bool
ready_instance machine none = false
ready_instance machine (some pages) = machine.instantiates && machine.exec_env

abbrev pub ready_runtime : Machine → Bool
ready_runtime machine =
    machine.curl_starts
    && (machine.full_init && (machine.loads && ready_instance machine (page_limit machine)))

abbrev pub ready_input : Machine → List ℕ → Bool
ready_input machine path =
    not (
      is_unset (machine.getenv (codes "FX_WAMR_LOCAL_MODEL_CATALOG"))
      && not machine.setenv_succeeds)
    && ((load_module_bytes machine.flash (machine.module_file path) path).0
        && ready_runtime machine)

abbrev pub ready_guards : Machine → List ℕ → Bool
ready_guards machine path =
    machine.prepares_guards && (complete machine.getenv variables && ready_input machine path)

abbrev pub ready_stream : Machine → List ℕ → Option StreamBuffer → Bool
ready_stream machine path none = false
ready_stream machine path (some stream) = ready_guards machine path

abbrev pub ready_arena : Machine → List ℕ → Option (Arena × WamrAllocator) → Bool
ready_arena machine path none = false
ready_arena machine path (some (arena, allocator)) = ready_stream machine path (
    reserve_stream machine.strtoul machine.stream_maps (linear_start machine.mapped_at arena)
      (machine.getenv (codes "FX_WAMR_NATIVE_STREAM_ADDRESS")))

abbrev pub launch_ready : Machine → List ℕ → Bool
launch_ready machine path =
    (reclaim_file_cache machine.cache_write).0
    && ready_arena machine path (
        init_wamr_allocator machine.strtoul machine.mmap machine.arena_memory machine.psram_node
          (machine.getenv (codes "FX_WAMR_LINEAR_MEMORY_ADDRESS")))

-- A launch that is ready runs the guest once, with the expected environment and the page limit, and ends
-- with the guest's code; one that is not never runs it and ends with EXIT_FAILURE.
abbrev pub Behaves : Machine → Bool → Exit → Type 0
Behaves machine true exit =
    (pages : ℕ) × (page_limit machine ≡ some pages)
    × (guest_runs exit.1 ≡ (expected machine.getenv variables, pages) ∷ [])
    × (exit.0 ≡ guest_code machine.executes)
Behaves machine false exit = (guest_runs exit.1 ≡ []) × (exit.0 ≡ 1)

module _ (machine : Machine) where
  pub fail-Behaves : (locals : Locals) → Behaves machine false (fail locals)
  unfolding fail leave
  fail-Behaves locals = (guest_runs-cleanup locals, refl)

  pub preceded-Behaves :
      (b : Bool) (actions : List Action) (exit : Exit)
      → guest_runs actions ≡ []
      → Behaves machine b exit
      → Behaves machine b (preceded actions exit)
  unfolding preceded
  preceded-Behaves true actions exit quiet (pages, limit, runs, code) =
      (pages, limit, quiet-append actions exit.1 quiet ∙ runs, code)
  preceded-Behaves false actions exit quiet (runs, code) =
      (quiet-append actions exit.1 quiet ∙ runs, code)

  pub guard-Behaves :
      (b later : Bool) (x y : Exit)
      → Behaves machine false x
      → Behaves machine later y
      → Behaves machine (b && later) (if not b then x else y)
  guard-Behaves true later x y hx hy = hy
  guard-Behaves false later x y hx hy = hx

  last-Behaves :
      (b : Bool) (x y : Exit)
      → Behaves machine false x
      → Behaves machine true y
      → Behaves machine b (if not b then x else y)
  last-Behaves true x y hx hy = hy
  last-Behaves false x y hx hy = hx

  execute_main-runs :
      (l : Locals) (environment : List (List ℕ)) (pages : ℕ) (code : Option ℕ)
      → (guest_runs (execute_main l environment pages code).1 ≡ (environment, pages) ∷ [])
        × ((execute_main l environment pages code).0 ≡ guest_code code)
  unfolding execute_main preceded leave fail guest_runs
  execute_main-runs l environment pages none =
      (ap (◌∷◌ (environment, pages)) (guest_runs-cleanup l), refl)
  execute_main-runs l environment pages (some code) =
      (ap (◌∷◌ (environment, pages)) (guest_runs-cleanup l), refl)

  execute_main-Behaves :
      (l : Locals) (pages : ℕ)
      → l.owned_env ≡ expected machine.getenv variables
      → page_limit machine ≡ some pages
      → Behaves machine true (execute_main l l.owned_env pages machine.executes)
  execute_main-Behaves l pages e limit =
      let (runs, code) = execute_main-runs l l.owned_env pages machine.executes in
      (pages, limit, runs ∙ ap (λ environment. (environment, pages) ∷ []) e, code)

  instantiate-Behaves :
      (l : Locals) (limit : Option ℕ)
      → l.owned_env ≡ expected machine.getenv variables
      → page_limit machine ≡ limit
      → Behaves machine (ready_instance machine limit) (instantiate machine l limit)
  unfolding instantiate run_instance guest_runs
  instantiate-Behaves l none e same = fail-Behaves l
  instantiate-Behaves l (some pages) e same =
      let made : Locals = record l { instance_made = true } in
      guard-Behaves machine.instantiates machine.exec_env _ _ (fail-Behaves l) (
        preceded-Behaves machine.exec_env _ _ refl (
          last-Behaves machine.exec_env _ _ (fail-Behaves made)
            (execute_main-Behaves made pages e same)))

  release_source-Behaves :
      (l : Locals)
      → l.owned_env ≡ expected machine.getenv variables
      → Behaves machine (ready_instance machine (page_limit machine)) (release_source machine l)
  unfolding release_source guest_runs
  release_source-Behaves l e =
      elim (Bool-cases (l.module_bytes.raw || l.module_bytes.xip || not machine.binary_freeable)) [
        | inl keeps ↦ rw keeps (instantiate-Behaves l (page_limit machine) e refl)
        | inr frees ↦ rw frees (
            preceded-Behaves _ _ _ (quiet-unload l.module_bytes) (
              instantiate-Behaves
                (record l { module_bytes = (unload_module_bytes l.module_bytes).0 })
                (page_limit machine) e refl))
      ]

  start_native-Behaves :
      (l : Locals)
      → l.owned_env ≡ expected machine.getenv variables
      → Behaves machine (ready_runtime machine) (start_native machine l)
  unfolding start_native start_runtime load_guest guest_runs
  start_native-Behaves l e =
      let native : Locals = record l { native_initialized = true } in
      let started : Locals = record native { runtime_initialized = true } in
      guard-Behaves machine.curl_starts _ _ _ (fail-Behaves l) (
        preceded-Behaves _ _ _ refl (
          guard-Behaves machine.full_init _ _ _ (fail-Behaves native) (
            preceded-Behaves _ _ _ refl (
              guard-Behaves machine.loads _ _ _ (fail-Behaves started) (
                preceded-Behaves _ _ _ refl
                  (release_source-Behaves (record started { module_loaded = true }) e))))))

  pub load_input-Behaves :
      (l : Locals) (loaded : Loaded)
      → guest_runs loaded.2 ≡ []
      → l.owned_env ≡ expected machine.getenv variables
      → Behaves machine (loaded.0 && ready_runtime machine) (load_input machine l loaded)
  unfolding load_input
  load_input-Behaves l (true, input, actions) quiet e =
      preceded-Behaves _ actions _ quiet
        (start_native-Behaves (record l { module_bytes = input }) e)
  load_input-Behaves l (false, input, actions) quiet e =
      preceded-Behaves false actions (fail (record l { module_bytes = input })) quiet
        (fail-Behaves (record l { module_bytes = input }))
