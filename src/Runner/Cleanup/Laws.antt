-- ===== src/Runner/Cleanup/Laws.antt =====
-- runtime/fx_wamr_runner.c: the clean-up of `main` gives back what its locals say is held, and nothing else.
use esp32_fx.Runner.Allocator.Setup.{Arena, borrowed, mapped}
use esp32_fx.Runner.Module.{unload_module_bytes}
use esp32_fx.Runner.Reserve.{StreamBuffer, borrowed_stream, mapped_stream}
use esp32_fx.Runner.Cleanup.{
  Locals, cleanup, free_entries, destroy_arena, destroy_wamr_allocator, destroy_stream,
}
use esp32_fx.Runner.Resources.{
  input_mapping, input_buffer, guards, native_library, runtime, guest_module, guest_instance,
  Action, release, when, Held, nothing, run, step, holds, put, given_back, in_use, freed_entry,
  first_is,
}
use esp32_fx.Prelude.{
  ℕ, suc, Bool, true, false, not, ◌&&◌, Option, none, some, List, [], ◌∷◌, ◌++◌, ◌≡◌, refl, ◌∙◌,
  ◌==◌, if◌then◌else◌, arith,
}

abbrev pub is_mapped : Option Arena → Bool
is_mapped (some mapped) = true
is_mapped _ = false

abbrev pub is_mapped_stream : Option StreamBuffer → Bool
is_mapped_stream (some mapped_stream) = true
is_mapped_stream _ = false

abbrev pub indexes : ℕ → List (List ℕ) → List ℕ
indexes index [] = []
indexes index (entry ∷ entries) = index ∷ indexes (suc index) entries

-- What is held when the flags, the source, the entries, the arena and the stream buffer are so.
abbrev pub holding :
    (instance_made loaded started native prepared copied in_map in_buffer : Bool)
    → List ℕ
    → (arena stream : Bool) → Held
holding instance_made loaded started native prepared copied in_map in_buffer entries arena stream =
    record {
      descriptor_held = false;
      mapping_held = in_map;
      buffer_held = in_buffer;
      arena_held = arena;
      stream_held = stream;
      guards_held = prepared;
      native_held = native;
      runtime_held = started;
      module_held = loaded;
      instance_held = instance_made;
      entries = entries;
      entry_wiped = false;
      stream_wiped = false;
      copied = loaded && copied;
    }

-- What is held when the locals of `main` are so, and WAMR has, or has not, copied the source.
abbrev pub held_of : Bool → Locals → Held
held_of copied locals =
    holding locals.instance_made locals.module_loaded locals.runtime_initialized
      locals.native_initialized locals.guards_prepared copied locals.module_bytes.mapped
      (not locals.module_bytes.mapped && locals.module_bytes.owned) (indexes 0 locals.owned_env)
      (is_mapped locals.arena) (is_mapped_stream locals.stream)

module _ (rest : List Action) where
  run-instance :
      (b m r n g c im ib : Bool) (e : List ℕ) (a s : Bool)
      → run (when b (release guest_instance) rest) (holding b m r n g c im ib e a s)
        ≡ run rest (holding false m r n g c im ib e a s)
  unfolding run step when holds in_use given_back put
  run-instance true m r n g c im ib e a s = refl
  run-instance false m r n g c im ib e a s = refl

  run-module :
      (b r n g c im ib : Bool) (e : List ℕ) (a s : Bool)
      → run (when b (release guest_module) rest) (holding false b r n g c im ib e a s)
        ≡ run rest (holding false false r n g c im ib e a s)
  unfolding run step when holds in_use given_back put
  run-module true r n g c im ib e a s = refl
  run-module false r n g c im ib e a s = refl

  run-runtime :
      (b n g c im ib : Bool) (e : List ℕ) (a s : Bool)
      → run (when b (release runtime) rest) (holding false false b n g c im ib e a s)
        ≡ run rest (holding false false false n g c im ib e a s)
  unfolding run step when holds in_use given_back put
  run-runtime true n g c im ib e a s = refl
  run-runtime false n g c im ib e a s = refl

  run-native :
      (b g c im ib : Bool) (e : List ℕ) (a s : Bool)
      → run (when b (release native_library) rest) (holding false false false b g c im ib e a s)
        ≡ run rest (holding false false false false g c im ib e a s)
  unfolding run step when holds in_use given_back put
  run-native true g c im ib e a s = refl
  run-native false g c im ib e a s = refl

  run-guards :
      (b c im ib : Bool) (e : List ℕ) (a s : Bool)
      → run (when b (release guards) rest) (holding false false false false b c im ib e a s)
        ≡ run rest (holding false false false false false c im ib e a s)
  unfolding run step when holds in_use given_back put
  run-guards true c im ib e a s = refl
  run-guards false c im ib e a s = refl

  -- Nothing but the source, the entries and the reserved memory is held.
  run-source :
      (in_map owned c : Bool) (e : List ℕ) (a s : Bool)
      → run
          ((if in_map
              then release input_mapping ∷ []
              else if owned
              then release input_buffer ∷ []
              else [])
            ++ rest)
          (holding false false false false false c in_map (not in_map && owned) e a s)
        ≡ run rest (holding false false false false false c false false e a s)
  unfolding run step holds in_use given_back put
  run-source true owned c e a s = refl
  run-source false true c e a s = refl
  run-source false false c e a s = refl

  run-entries :
      (index : ℕ) (entries : List (List ℕ)) (c a s : Bool)
      → run
          (free_entries index entries ++ rest)
          (holding false false false false false c false false (indexes index entries) a s)
        ≡ run rest (holding false false false false false c false false [] a s)
  unfolding run step free_entries freed_entry first_is
  run-entries index [] c a s = refl
  run-entries index (entry ∷ entries) c a s =
      let same : (index == index) ≡ true = ground (arith) in
      rw (same, run) (rw (same, run) (run-entries (suc index) entries c a s))

  run-arena :
      (arena : Option Arena) (c s : Bool)
      → run
          (destroy_arena arena ++ rest)
          (holding false false false false false c false false [] (is_mapped arena) s)
        ≡ run rest (holding false false false false false c false false [] false s)
  unfolding run step destroy_arena destroy_wamr_allocator holds in_use given_back put
  run-arena none c s = refl
  run-arena (some (borrowed address)) c s = refl
  run-arena (some mapped) c s = refl

run-stream :
    (stream : Option StreamBuffer) (c : Bool)
    → run
        (destroy_stream stream)
        (holding false false false false false c false false [] false (is_mapped_stream stream))
      ≡ some nothing
unfolding run step destroy_stream holds in_use given_back put nothing
run-stream none c = refl
run-stream (some (borrowed_stream address)) c = refl
run-stream (some mapped_stream) c = refl

-- The clean-up gives back exactly what the locals say is held, each thing behind those that use it, and
-- wipes before it frees.
pub cleanup_lem :
    (copied : Bool) (locals : Locals) → run (cleanup locals) (held_of copied locals) ≡ some nothing
unfolding cleanup unload_module_bytes
cleanup_lem c l =
    let im = l.module_bytes.mapped in
    let ib = not l.module_bytes.mapped && l.module_bytes.owned in
    let e = indexes 0 l.owned_env in
    let a = is_mapped l.arena in
    let s = is_mapped_stream l.stream in
    run-instance _ l.instance_made l.module_loaded l.runtime_initialized l.native_initialized
      l.guards_prepared c im ib e a s
    ∙ run-module _ l.module_loaded l.runtime_initialized l.native_initialized l.guards_prepared c im
        ib e a s
    ∙ run-runtime _ l.runtime_initialized l.native_initialized l.guards_prepared c im ib e a s
    ∙ run-native _ l.native_initialized l.guards_prepared c im ib e a s
    ∙ run-guards _ l.guards_prepared c im ib e a s
    ∙ run-source _ im l.module_bytes.owned c e a s
    ∙ run-entries _ 0 l.owned_env c a s
    ∙ run-arena _ l.arena c s
    ∙ run-stream l.stream c
