-- ===== src/Runner/Cleanup/Quiet.antt =====
-- runtime/fx_wamr_runner.c: the clean-up of `main` does not run the guest.
use esp32_fx.Runner.Allocator.Setup.{Arena, borrowed, mapped}
use esp32_fx.Runner.Cleanup.{
  Locals, cleanup, free_entries, destroy_arena, destroy_wamr_allocator, destroy_stream,
}
use esp32_fx.Runner.Module.{ModuleBytes, unload_module_bytes}
use esp32_fx.Runner.Reserve.{StreamBuffer, borrowed_stream, mapped_stream}
use esp32_fx.Runner.Resources.{
  Resource, Action, run_guest, release, input_mapping, input_buffer, when, guest_runs,
}
use esp32_fx.Prelude.{
  ℕ, suc, Bool, true, false, Option, none, some, List, [], ◌∷◌, ◌++◌, ◌≡◌, refl, ap, ◌∙◌,
  if◌then◌else◌,
}

guest_runs-append : (xs ys : List Action) → guest_runs (xs ++ ys) ≡ guest_runs xs ++ guest_runs ys
unfolding guest_runs
guest_runs-append [] ys = refl
guest_runs-append (run_guest environment pages ∷ xs) ys =
    ap (◌∷◌ (environment, pages)) (guest_runs-append xs ys)
guest_runs-append (_ ∷ xs) ys = guest_runs-append xs ys

pub quiet-append :
    (xs ys : List Action) → guest_runs xs ≡ [] → guest_runs (xs ++ ys) ≡ guest_runs ys
quiet-append xs ys quiet = guest_runs-append xs ys ∙ rw quiet refl

quiet-when :
    (b : Bool) (r : Resource) (rest : List Action)
    → guest_runs (when b (release r) rest) ≡ guest_runs rest
unfolding when guest_runs
quiet-when true r rest = refl
quiet-when false r rest = refl

quiet-source :
    (mapped owned : Bool)
    → guest_runs (
        if mapped
        then release input_mapping ∷ []
        else if owned
        then release input_buffer ∷ []
        else [])
      ≡ []
unfolding guest_runs
quiet-source true owned = refl
quiet-source false true = refl
quiet-source false false = refl

pub quiet-unload : (input : ModuleBytes) → guest_runs (unload_module_bytes input).1 ≡ []
unfolding unload_module_bytes
quiet-unload input = quiet-source input.mapped input.owned

quiet-entries : (index : ℕ) (entries : List (List ℕ)) → guest_runs (free_entries index entries) ≡ []
unfolding free_entries guest_runs
quiet-entries index [] = refl
quiet-entries index (entry ∷ entries) = quiet-entries (suc index) entries

quiet-arena : (arena : Option Arena) → guest_runs (destroy_arena arena) ≡ []
unfolding destroy_arena destroy_wamr_allocator guest_runs
quiet-arena none = refl
quiet-arena (some (borrowed address)) = refl
quiet-arena (some mapped) = refl

quiet-stream : (stream : Option StreamBuffer) → guest_runs (destroy_stream stream) ≡ []
unfolding destroy_stream guest_runs
quiet-stream none = refl
quiet-stream (some (borrowed_stream address)) = refl
quiet-stream (some mapped_stream) = refl

pub guest_runs-cleanup : (locals : Locals) → guest_runs (cleanup locals) ≡ []
unfolding cleanup
guest_runs-cleanup locals =
    quiet-when locals.instance_made _ _
    ∙ quiet-when locals.module_loaded _ _
    ∙ quiet-when locals.runtime_initialized _ _
    ∙ quiet-when locals.native_initialized _ _
    ∙ quiet-when locals.guards_prepared _ _
    ∙ quiet-append _ _ (quiet-unload locals.module_bytes)
    ∙ quiet-append _ _ (quiet-entries 0 locals.owned_env)
    ∙ quiet-append _ _ (quiet-arena locals.arena)
    ∙ quiet-stream locals.stream
