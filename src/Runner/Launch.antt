-- ===== src/Runner/Launch.antt =====
-- runtime/fx_wamr_runner.c: `reclaim_file_cache` and `main` in the board's build, as
-- the log of what is taken and given back. The kernel, libcurl's start, WAMR and the guest are parameters:
-- each call may succeed or fail. The messages, the log of the guest's memory and what WAMR is given besides
-- the source (the allocator's functions, the symbols, the flags of the source, the guest's one argument) are
-- left out.
pub mod Balance
pub mod Guest
pub mod Starts
mod Tests
use esp32_fx.Runner.Allocator.{WamrAllocator}
use esp32_fx.Runner.Allocator.Setup.{
  Arena, borrowed, mapped, linear_reserve_bytes, init_wamr_allocator,
}
use esp32_fx.Runner.Cleanup.{Locals, cleanup}
use esp32_fx.Runner.Environment.{variables, collect}
use esp32_fx.Runner.Module.{
  ModuleBytes, no_module, ModuleFile, Loaded, default_fx_module, load_module_bytes,
  unload_module_bytes,
}
use esp32_fx.Runner.Reserve.{
  StreamBuffer, borrowed_stream, mapped_stream, linear_start, reserve_stream, memory_pages,
}
use esp32_fx.Runner.Resources.{
  Resource, descriptor, arena_mapping, stream_mapping, guards, native_library, runtime,
  guest_module, guest_instance, Action, acquire, release, input_copied, make_entry, wipe_entry,
  free_entry, wipe_metadata, wipe_stream, run_guest, when,
}
use esp32_fx.Prelude.{
  ℕ, zero, suc, ◌+◌, Bool, true, false, not, ◌&&◌, ◌||◌, Option, none, some, List, [], ◌∷◌, ◌++◌,
  length, ltb, ◌==◌, if◌then◌else◌, codes, same_text,
}

-- What the calls of one launch answer.
pub record Machine : Type 0 where
  -- what `write` to drop_caches gives, if the file opens
  pub cache_write : Option ℕ
  -- the content of the device tree's node
  pub psram_node : Option (List ℕ)
  pub getenv : List ℕ → Option (List ℕ)
  pub strtoul : List ℕ → Option (ℕ × List ℕ)
  pub strtoul_decimal : List ℕ → ℕ × List ℕ
  pub mmap : ℕ → Option (List ℕ)
  pub arena_memory : ℕ → ℕ → List ℕ
  pub mapped_at : ℕ
  pub stream_maps : Bool
  -- `fx_wamr_prepare_low_memory_guards`, which keeps nothing if it fails
  pub prepares_guards : Bool
  pub has_memory : ℕ → Bool
  pub setenv_succeeds : Bool
  pub flash : ℕ → ℕ
  pub module_file : List ℕ → ModuleFile
  -- `curl_global_init`
  pub curl_starts : Bool
  pub full_init : Bool
  pub loads : Bool
  pub binary_freeable : Bool
  pub instantiates : Bool
  pub exec_env : Bool
  -- the exit code, if the guest's `main` ends without an exception
  pub executes : Option ℕ

-- Whether the caches were reclaimed.
pub reclaim_file_cache : Option ℕ → Bool × List Action
reclaim_file_cache none = (false, [])
reclaim_file_cache (some written) = (written == 2, acquire descriptor ∷ release descriptor ∷ [])

-- The exit code, and what was done.
abbrev pub Exit : Type 0
Exit = ℕ × List Action

-- `goto cleanup` with the result that was set
leave : ℕ → Locals → Exit
leave result locals = (result, cleanup locals)

-- EXIT_FAILURE
pub fail : Locals → Exit
fail locals = leave 1 locals

-- What was done before.
pub preceded : List Action → Exit → Exit
preceded actions exit = (exit.0, actions ++ exit.1)

execute_main : Locals → List (List ℕ) → ℕ → Option ℕ → Exit
execute_main locals environment pages none =
    preceded (run_guest environment pages ∷ []) (fail locals)
execute_main locals environment pages (some code) =
    preceded (run_guest environment pages ∷ []) (leave code locals)

run_instance : Machine → Locals → ℕ → Exit
run_instance machine locals pages =
    if not machine.exec_env
    then fail locals
    else execute_main locals locals.owned_env pages machine.executes

instantiate : Machine → Locals → Option ℕ → Exit
instantiate machine locals none = fail locals
instantiate machine locals (some pages) =
    if not machine.instantiates
    then fail locals
    else preceded (acquire guest_instance ∷ [])
        (run_instance machine (record locals { instance_made = true }) pages)

-- Behind `wasm_runtime_load_ex`: the source is released if WAMR has copied it, and the page limit is read.
release_source : Machine → Locals → Exit
release_source machine locals =
    let pages =
      memory_pages machine.strtoul_decimal linear_reserve_bytes
        (machine.getenv (codes "FX_WAMR_MAX_PAGES")) in
    if locals.module_bytes.raw || locals.module_bytes.xip || not machine.binary_freeable
    then instantiate machine locals pages
    else (let (module_bytes, unloaded) = unload_module_bytes locals.module_bytes in
        preceded (input_copied ∷ unloaded)
          (instantiate machine (record locals { module_bytes = module_bytes }) pages))

load_guest : Machine → Locals → Exit
load_guest machine locals =
    if not machine.loads
    then fail locals
    else preceded (acquire guest_module ∷ [])
        (release_source machine (record locals { module_loaded = true }))

start_runtime : Machine → Locals → Exit
start_runtime machine locals =
    if not machine.full_init
    then fail locals
    else preceded (acquire runtime ∷ [])
        (load_guest machine (record locals { runtime_initialized = true }))

-- `init_native_lib`; `get_native_lib` gives a table of 15 symbols.
start_native : Machine → Locals → Exit
start_native machine locals =
    if not machine.curl_starts
    then fail locals
    else preceded (acquire native_library ∷ [])
        (start_runtime machine (record locals { native_initialized = true }))

pub load_input : Machine → Locals → Loaded → Exit
load_input machine locals (ok, module_bytes, actions) =
    let loaded = record locals { module_bytes = module_bytes } in
    preceded actions (if ok then start_native machine loaded else fail loaded)

-- FX_WAMR_LOCAL_MODEL_CATALOG
pub is_unset : Option (List ℕ) → Bool
is_unset none = true
is_unset (some value) = false

set_catalog : Machine → List ℕ → Locals → Exit
set_catalog machine wasm_path locals =
    if is_unset (machine.getenv (codes "FX_WAMR_LOCAL_MODEL_CATALOG"))
      && not machine.setenv_succeeds
    then fail locals
    else load_input machine locals
        (load_module_bytes machine.flash (machine.module_file wasm_path) wasm_path)

-- The entries from an index on.
made_entries : ℕ → List (List ℕ) → List Action
made_entries index [] = []
made_entries index (entry ∷ entries) = make_entry index ∷ made_entries (suc index) entries

make_environment : Machine → List ℕ → Locals → Bool × List (List ℕ) → Exit
make_environment machine wasm_path locals (ok, owned_env) =
    let made = record locals { owned_env = owned_env } in
    preceded (made_entries 0 owned_env)
      (if ok then set_catalog machine wasm_path made else fail made)

reserve_guards : Machine → List ℕ → Locals → Exit
reserve_guards machine wasm_path locals =
    if not machine.prepares_guards
    then fail locals
    else preceded (acquire guards ∷ []) (
        make_environment machine wasm_path (record locals { guards_prepared = true })
          (collect machine.getenv machine.has_memory variables []))

taken_stream : StreamBuffer → List Action
taken_stream (borrowed_stream address) = []
taken_stream mapped_stream = acquire stream_mapping ∷ []

take_stream : Machine → List ℕ → Locals → Option StreamBuffer → Exit
take_stream machine wasm_path locals none = fail locals
take_stream machine wasm_path locals (some stream) =
    preceded (taken_stream stream)
      (reserve_guards machine wasm_path (record locals { stream = some stream }))

taken_arena : Arena → List Action
taken_arena (borrowed address) = []
taken_arena mapped = acquire arena_mapping ∷ []

take_arena : Machine → List ℕ → Locals → Option (Arena × WamrAllocator) → Exit
take_arena machine wasm_path locals none = fail locals
take_arena machine wasm_path locals (some (arena, allocator)) = preceded (taken_arena arena) (
    take_stream machine wasm_path (record locals { arena = some arena })
      (reserve_stream machine.strtoul machine.stream_maps (linear_start machine.mapped_at arena)
        (machine.getenv (codes "FX_WAMR_NATIVE_STREAM_ADDRESS"))))

-- `main` has set nothing.
abbrev pub no_locals : Locals
no_locals = record {
  arena = none;
  stream = none;
  guards_prepared = false;
  owned_env = [];
  module_bytes = no_module;
  native_initialized = false;
  runtime_initialized = false;
  module_loaded = false;
  instance_made = false;
}

pub launch : Machine → List ℕ → Exit
launch machine wasm_path =
    let (reclaimed, actions) = reclaim_file_cache machine.cache_write in
    preceded actions (
      if not reclaimed
      then fail no_locals
      else take_arena machine wasm_path no_locals (
          init_wamr_allocator machine.strtoul machine.mmap machine.arena_memory machine.psram_node
            (machine.getenv (codes "FX_WAMR_LINEAR_MEMORY_ADDRESS"))))

-- The arguments are those behind the program's name.
pub main : Machine → List (List ℕ) → Exit
main machine [] = launch machine default_fx_module
main machine (argument ∷ []) =
    if same_text argument (codes "--help") then (0, []) else launch machine argument
main machine (argument ∷ other ∷ arguments) = (1, [])
