-- ===== src/Runner/Cleanup.antt =====
-- runtime/fx_wamr_runner.c: `destroy_wamr_allocator` and the clean-up of `main` in the board's build, as the log
-- of what is given back.
pub mod Laws
pub mod Quiet
use esp32_fx.Runner.Allocator.{WamrAllocator}
use esp32_fx.Runner.Allocator.Setup.{Arena, borrowed, mapped, init_wamr_allocator}
use esp32_fx.Runner.Environment.{variables, collect}
use esp32_fx.Runner.Module.{
  ModuleBytes, no_module, ModuleFile, Loaded, default_fx_module, load_module_bytes,
  unload_module_bytes,
}
use esp32_fx.Runner.Reserve.{
  StreamBuffer, borrowed_stream, mapped_stream, linear_start, reserve_stream, memory_pages,
}
use esp32_fx.Runner.Resources.{
  Resource, descriptor, arena_mapping, stream_mapping, guards, native_library, runtime,
  guest_module, guest_instance, Action, acquire, release, input_copied, make_entry, wipe_entry,
  free_entry, wipe_metadata, wipe_stream, run_guest, when,
}
use esp32_fx.Prelude.{
  ℕ, zero, suc, ◌+◌, Bool, true, false, not, ◌&&◌, ◌||◌, Option, none, some, List, [], ◌∷◌, ◌++◌,
  length, ltb, ◌==◌, if◌then◌else◌, codes, same_text,
}

-- The locals of `main` that its clean-up reads: `allocator_initialized` with the arena,
-- `native_stream_buffer`, `low_memory_guards_prepared`, the entries of `owned_env` that are not NULL (they
-- are its first), and the rest by their names.
pub record Locals : Type 0 where
  pub arena : Option Arena
  pub stream : Option StreamBuffer
  pub guards_prepared : Bool
  pub owned_env : List (List ℕ)
  pub module_bytes : ModuleBytes
  pub native_initialized : Bool
  pub runtime_initialized : Bool
  pub module_loaded : Bool
  pub instance_made : Bool

-- `destroy_wamr_allocator`, of an allocator that is set up
destroy_wamr_allocator : Arena → List Action
destroy_wamr_allocator (borrowed address) = wipe_metadata ∷ []
destroy_wamr_allocator mapped = wipe_metadata ∷ release arena_mapping ∷ []

destroy_arena : Option Arena → List Action
destroy_arena none = []
destroy_arena (some arena) = destroy_wamr_allocator arena

destroy_stream : Option StreamBuffer → List Action
destroy_stream none = []
destroy_stream (some (borrowed_stream address)) = wipe_stream ∷ []
destroy_stream (some mapped_stream) = wipe_stream ∷ release stream_mapping ∷ []

-- The loop over `owned_env`, from an index on.
free_entries : ℕ → List (List ℕ) → List Action
free_entries index [] = []
free_entries index (entry ∷ entries) =
    wipe_entry index ∷ free_entry index ∷ free_entries (suc index) entries

-- The code behind the label `cleanup`.
pub cleanup : Locals → List Action
cleanup locals = when locals.instance_made (release guest_instance) (
    when locals.module_loaded (release guest_module) (
      when locals.runtime_initialized (release runtime) (
        when locals.native_initialized (release native_library) (
          when locals.guards_prepared (release guards) (
            (unload_module_bytes locals.module_bytes).1
            ++ (free_entries 0 locals.owned_env
                ++ (destroy_arena locals.arena ++ destroy_stream locals.stream)))))))
