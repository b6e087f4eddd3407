-- ===== src/Runner/Launch/Balance.antt =====
-- runtime/fx_wamr_runner.c: on every path, `main` gives back what it took.
use esp32_fx.Runner.Allocator.{WamrAllocator}
use esp32_fx.Runner.Allocator.Setup.{Arena, borrowed, mapped, linear_reserve_bytes}
use esp32_fx.Runner.Cleanup.{Locals}
use esp32_fx.Runner.Cleanup.Laws.{
  is_mapped, is_mapped_stream, held_of, holding, indexes, cleanup_lem,
}
use esp32_fx.Runner.Module.{no_module, Loaded, unload_module_bytes, default_fx_module}
use esp32_fx.Runner.Module.Loads.{IsLoad, IsMarked, load_module_bytes-IsLoad}
use esp32_fx.Runner.Reserve.{StreamBuffer, borrowed_stream, mapped_stream, memory_pages}
use esp32_fx.Runner.Launch.{
  Machine, reclaim_file_cache, Exit, leave, fail, preceded, execute_main, run_instance, instantiate,
  release_source, load_guest, start_runtime, start_native, load_input, is_unset, set_catalog,
  made_entries, make_environment, reserve_guards, taken_stream, take_stream, taken_arena,
  take_arena, no_locals, launch, main,
}
use esp32_fx.Runner.Resources.{
  Action, Held, nothing, run, step, holds, put, given_back, supported, in_use, IsBalanced,
  input_mapping, input_buffer, release,
}
use esp32_fx.Prelude.{
  ℕ, suc, Bool, true, false, not, ◌&&◌, ◌||◌, Option, none, some, List, [], ◌∷◌, ◌++◌, ◌≡◌, refl,
  sym, ap, ◌∙◌, ◌==◌, if◌then◌else◌, append_assoc, append-nil, same_text, codes, inl, inr, arith,
  Bool-cases, ◌<◌,
}

-- The exit gives back everything, from what is held.
abbrev Ends : Held → Exit → Type 0
Ends held exit = run exit.1 held ≡ some nothing

if-Ends :
    (held : Held) (b : Bool) (x y : Exit)
    → Ends held x
    → Ends held y
    → Ends held (if b then x else y)
if-Ends held true x y hx hy = hx
if-Ends held false x y hx hy = hy

fail-Ends : (copied : Bool) (locals : Locals) → Ends (held_of copied locals) (fail locals)
unfolding fail leave
fail-Ends copied locals = cleanup_lem copied locals

-- The locals between the calls that start the native library and those that make the instance.
abbrev at : (instance_made loaded started native : Bool) → Locals → Locals
at instance_made loaded started native locals = record locals {
  instance_made = instance_made;
  module_loaded = loaded;
  runtime_initialized = started;
  native_initialized = native;
}

-- The locals before the source is loaded.
abbrev early : Locals → Locals
early locals = record (at false false false false locals) { module_bytes = no_module }

abbrev bare : Locals → Locals
bare locals = record (early locals) { owned_env = [] }

abbrev unguarded : Locals → Locals
unguarded locals = record (bare locals) { guards_prepared = false }

abbrev unstreamed : Locals → Locals
unstreamed locals = record (unguarded locals) { stream = none }

-- The flash is read by bytes.
abbrev pub IsFlashed : Machine → Type 0
IsFlashed machine = (address : ℕ) → machine.flash address < 256

module _ (machine : Machine) where
  execute_main-Ends :
      (c : Bool) (l : Locals) (environment : List (List ℕ)) (pages : ℕ) (code : Option ℕ)
      → Ends
          (held_of c (at true true true true l))
          (execute_main (at true true true true l) environment pages code)
  unfolding execute_main preceded leave run step
  execute_main-Ends c l environment pages none = fail-Ends c (at true true true true l)
  execute_main-Ends c l environment pages (some code) = cleanup_lem c (at true true true true l)

  instantiate-Ends :
      (c : Bool) (l : Locals) (pages : Option ℕ)
      → Ends
          (held_of c (at false true true true l))
          (instantiate machine (at false true true true l) pages)
  unfolding instantiate run_instance preceded run step holds supported put
  instantiate-Ends c l none = fail-Ends c (at false true true true l)
  instantiate-Ends c l (some pages) =
      if-Ends _ (not machine.instantiates) _ _ (fail-Ends c (at false true true true l)) (
        if-Ends (held_of c (at true true true true l)) (not machine.exec_env) _ _
          (fail-Ends c (at true true true true l))
          (execute_main-Ends c l l.owned_env pages machine.executes))

  unloaded-Ends :
      (mapped owned : Bool) (l : Locals) (pages : Option ℕ)
      → mapped ≡ false
      → run
          ((if mapped
              then release input_mapping ∷ []
              else if owned
              then release input_buffer ∷ []
              else [])
            ++ (instantiate machine
                (at false true true true (record l { module_bytes = no_module }))
                pages).1)
          (holding false true true true l.guards_prepared true mapped
            (not mapped && owned)
            (indexes 0 l.owned_env)
            (is_mapped l.arena)
            (is_mapped_stream l.stream))
        ≡ some nothing
  unfolding run step holds in_use given_back put no_module
  unloaded-Ends true owned l pages e = absurd (cc (e))
  unloaded-Ends false true l pages e =
      instantiate-Ends true (record l { module_bytes = no_module }) pages
  unloaded-Ends false false l pages e =
      instantiate-Ends true (record l { module_bytes = no_module }) pages

  release_source-Ends :
      (l : Locals)
      → IsMarked l.module_bytes
      → Ends
          (held_of false (at false true true true l))
          (release_source machine (at false true true true l))
  unfolding release_source preceded unload_module_bytes run step no_module
  release_source-Ends l marked =
      let pages =
        memory_pages machine.strtoul_decimal linear_reserve_bytes
          (machine.getenv (codes "FX_WAMR_MAX_PAGES")) in
      elim (Bool-cases (l.module_bytes.raw || l.module_bytes.xip || not machine.binary_freeable)) [
        | inl keeps ↦ rw keeps (instantiate-Ends false l pages)
        | inr frees ↦ rw frees (
            unloaded-Ends l.module_bytes.mapped l.module_bytes.owned l pages
              (ground (arith, frees, marked)))
      ]

  load_guest-Ends :
      (l : Locals)
      → IsMarked l.module_bytes
      → Ends
          (held_of false (at false false true true l))
          (load_guest machine (at false false true true l))
  unfolding load_guest preceded run step holds supported put
  load_guest-Ends l marked =
      if-Ends _ (not machine.loads) _ _ (fail-Ends false (at false false true true l))
        (release_source-Ends l marked)

  start_runtime-Ends :
      (l : Locals)
      → IsMarked l.module_bytes
      → Ends
          (held_of false (at false false false true l))
          (start_runtime machine (at false false false true l))
  unfolding start_runtime preceded run step holds supported put
  start_runtime-Ends l marked =
      if-Ends _ (not machine.full_init) _ _ (fail-Ends false (at false false false true l))
        (load_guest-Ends l marked)

  start_native-Ends :
      (l : Locals)
      → IsMarked l.module_bytes
      → Ends
          (held_of false (at false false false false l))
          (start_native machine (at false false false false l))
  unfolding start_native preceded run step holds supported put
  start_native-Ends l marked =
      if-Ends _ (not machine.curl_starts) _ _ (fail-Ends false (at false false false false l))
        (start_runtime-Ends l marked)

  load_input-Ends :
      (l : Locals) (loaded : Loaded)
      → IsLoad loaded
      → Ends (held_of false (early l)) (load_input machine (early l) loaded)
  unfolding load_input preceded no_module
  load_input-Ends l (ok, input, actions) (runs, fails, marked, quiet) =
      let loaded : Locals = record (early l) { module_bytes = input } in
      runs (held_of false (early l)) (if ok then start_native machine loaded else fail loaded).1
      ∙ if-Ends (held_of false loaded) ok _ _ (start_native-Ends loaded marked)
          (fail-Ends false loaded)

  set_catalog-Ends :
      (path : List ℕ) (l : Locals)
      → IsFlashed machine
      → Ends (held_of false (early l)) (set_catalog machine path (early l))
  unfolding set_catalog
  set_catalog-Ends path l flashed =
      if-Ends _
        (is_unset (machine.getenv (codes "FX_WAMR_LOCAL_MODEL_CATALOG"))
          && not machine.setenv_succeeds)
        _ _ (fail-Ends false (early l))
        (load_input-Ends l _
          (load_module_bytes-IsLoad machine.flash (machine.module_file path) path flashed))

  run-made_entries :
      (index : ℕ) (entries : List (List ℕ)) (rest : List Action) (held : Held)
      → run (made_entries index entries ++ rest) held
        ≡ run rest (record held { entries = held.entries ++ indexes index entries })
  unfolding made_entries run step
  run-made_entries index [] rest held =
      ap (λ e. run rest (record held { entries = e })) (sym (append-nil held.entries))
  run-made_entries index (entry ∷ entries) rest held =
      run-made_entries (suc index) entries rest
        (record held { entries = held.entries ++ index ∷ [] })
      ∙ ap (λ e. run rest (record held { entries = e }))
          (append_assoc held.entries (index ∷ []) (indexes (suc index) entries))

  make_environment-Ends :
      (path : List ℕ) (l : Locals) (made : Bool × List (List ℕ))
      → IsFlashed machine
      → Ends (held_of false (bare l)) (make_environment machine path (bare l) made)
  unfolding make_environment preceded
  make_environment-Ends path l (ok, owned) flashed =
      let next : Locals = record (early l) { owned_env = owned } in
      run-made_entries 0 owned (if ok then set_catalog machine path next else fail next).1
        (held_of false (bare l))
      ∙ if-Ends (held_of false next) ok _ _ (set_catalog-Ends path next flashed)
          (fail-Ends false next)

  reserve_guards-Ends :
      (path : List ℕ) (l : Locals)
      → IsFlashed machine
      → Ends (held_of false (unguarded l)) (reserve_guards machine path (unguarded l))
  unfolding reserve_guards preceded run step holds supported put
  reserve_guards-Ends path l flashed =
      if-Ends _ (not machine.prepares_guards) _ _ (fail-Ends false (unguarded l))
        (make_environment-Ends path (record l { guards_prepared = true }) _ flashed)

  take_stream-Ends :
      (path : List ℕ) (l : Locals) (stream : Option StreamBuffer)
      → IsFlashed machine
      → Ends (held_of false (unstreamed l)) (take_stream machine path (unstreamed l) stream)
  unfolding take_stream taken_stream preceded run step holds supported put
  take_stream-Ends path l none flashed = fail-Ends false (unstreamed l)
  take_stream-Ends path l (some (borrowed_stream address)) flashed =
      reserve_guards-Ends path (record l { stream = some (borrowed_stream address) }) flashed
  take_stream-Ends path l (some mapped_stream) flashed =
      reserve_guards-Ends path (record l { stream = some mapped_stream }) flashed

  take_arena-Ends :
      (path : List ℕ) (made : Option (Arena × WamrAllocator))
      → IsFlashed machine
      → Ends nothing (take_arena machine path no_locals made)
  unfolding take_arena taken_arena preceded run step holds supported put nothing no_module
  take_arena-Ends path none flashed = fail-Ends false no_locals
  take_arena-Ends path (some (borrowed address, allocator)) flashed =
      take_stream-Ends path (record no_locals { arena = some (borrowed address) }) _ flashed
  take_arena-Ends path (some (mapped, allocator)) flashed =
      take_stream-Ends path (record no_locals { arena = some mapped }) _ flashed

  reclaimed-Ends :
      (write : Option ℕ) (next : Exit)
      → Ends nothing next
      → Ends nothing (
          preceded
            (reclaim_file_cache write).1
            (if not (reclaim_file_cache write).0 then fail no_locals else next))
  unfolding reclaim_file_cache preceded run step holds supported in_use given_back put nothing
      no_module
  reclaimed-Ends none next ends = fail-Ends false no_locals
  reclaimed-Ends (some written) next ends =
      if-Ends nothing (not (written == 2)) _ _ (fail-Ends false no_locals) ends

  launch-Ends : (path : List ℕ) → IsFlashed machine → Ends nothing (launch machine path)
  unfolding launch
  launch-Ends path flashed = reclaimed-Ends machine.cache_write _ (take_arena-Ends path _ flashed)

-- Whatever the calls answer, the actions of `main` take no thing twice, give back nothing that is not held
-- or that something else still uses, free no entry of the environment and no stream buffer that is not
-- wiped, and leave nothing held.
pub main-IsBalanced :
    (machine : Machine) (arguments : List (List ℕ))
    → IsFlashed machine
    → IsBalanced (main machine arguments).1
unfolding main run
main-IsBalanced machine [] flashed = launch-Ends machine default_fx_module flashed
main-IsBalanced machine (argument ∷ []) flashed =
    if-Ends nothing (same_text argument (codes "--help")) _ _ refl
      (launch-Ends machine argument flashed)
main-IsBalanced machine (argument ∷ other ∷ arguments) flashed = refl
