-- ===== src/Runner/Resources.antt =====
-- runtime/fx_wamr_runner.c: what the launcher takes and gives back, as a log of actions, and a checker
-- that reads such a log: nothing is taken twice, nothing is given back that is not held or that another
-- thing still uses, and no secret is freed before it is wiped.
use esp32_fx.Prelude.{
  ℕ, Bool, true, false, not, ◌&&◌, ◌||◌, ◌==◌, Option, none, some, List, [], ◌∷◌, ◌++◌, ◌≡◌,
  if◌then◌else◌, ◌>>=◌,
}

pub data Resource : Type 0 where
  descriptor : Resource
  input_mapping : Resource
  input_buffer : Resource
  arena_mapping : Resource
  stream_mapping : Resource
  guards : Resource
  native_library : Resource
  runtime : Resource
  guest_module : Resource
  guest_instance : Resource

-- `input_copied` is the answer of `wasm_runtime_is_underlying_binary_freeable` that the loaded module no
-- longer reads its source; the entries are the strings of the guest's environment, by their index in
-- `owned_env`; `run_guest` is the call of the guest's `main` with its environment and its page limit.
pub data Action : Type 0 where
  acquire : Resource → Action
  release : Resource → Action
  input_copied : Action
  make_entry : ℕ → Action
  wipe_entry : ℕ → Action
  free_entry : ℕ → Action
  wipe_metadata : Action
  wipe_stream : Action
  run_guest : List (List ℕ) → ℕ → Action

-- What is held: the resources, the indexes of the entries, and whether the first of these is wiped, the
-- stream buffer is wiped, and the module can do without its source.
pub record Held : Type 0 where
  pub descriptor_held : Bool
  pub mapping_held : Bool
  pub buffer_held : Bool
  pub arena_held : Bool
  pub stream_held : Bool
  pub guards_held : Bool
  pub native_held : Bool
  pub runtime_held : Bool
  pub module_held : Bool
  pub instance_held : Bool
  pub entries : List ℕ
  pub entry_wiped : Bool
  pub stream_wiped : Bool
  pub copied : Bool

unfoldable pub nothing : Held
nothing = record {
  descriptor_held = false;
  mapping_held = false;
  buffer_held = false;
  arena_held = false;
  stream_held = false;
  guards_held = false;
  native_held = false;
  runtime_held = false;
  module_held = false;
  instance_held = false;
  entries = [];
  entry_wiped = false;
  stream_wiped = false;
  copied = false;
}

unfoldable pub holds : Resource → Held → Bool
holds descriptor held = held.descriptor_held
holds input_mapping held = held.mapping_held
holds input_buffer held = held.buffer_held
holds arena_mapping held = held.arena_held
holds stream_mapping held = held.stream_held
holds guards held = held.guards_held
holds native_library held = held.native_held
holds runtime held = held.runtime_held
holds guest_module held = held.module_held
holds guest_instance held = held.instance_held

unfoldable pub put : Resource → Bool → Held → Held
put descriptor b held = record held { descriptor_held = b }
put input_mapping b held = record held { mapping_held = b }
put input_buffer b held = record held { buffer_held = b }
put arena_mapping b held = record held { arena_held = b }
put stream_mapping b held = record held { stream_held = b }
put guards b held = record held { guards_held = b }
put native_library b held = record held { native_held = b }
put runtime b held = record held { runtime_held = b }
put guest_module b held = record held { module_held = b }
put guest_instance b held = record held { instance_held = b }

-- A resource that is gone leaves no trace of how it was treated.
unfoldable pub given_back : Resource → Held → Held
given_back stream_mapping held = record held { stream_held = false; stream_wiped = false }
given_back guest_module held = record held { module_held = false; copied = false }
given_back r held = put r false held

-- What has to be there before a resource is taken.
unfoldable pub supported : Resource → Held → Bool
supported runtime held = held.native_held
supported guest_module held = held.runtime_held
supported guest_instance held = held.module_held
supported _ held = true

-- Whether something that is held still needs a resource: an instance its module, a module the runtime,
-- its source and the environment, the runtime its native library and its memory, and the library the
-- stream buffer. A stream buffer holds what the provider sent, so it is wiped first.
unfoldable pub in_use : Resource → Held → Bool
in_use input_mapping held = held.module_held
in_use input_buffer held = held.module_held && not held.copied
in_use arena_mapping held = held.runtime_held || held.module_held || held.instance_held
in_use stream_mapping held = held.native_held || not held.stream_wiped
in_use guards held = held.instance_held
in_use native_library held = held.runtime_held
in_use runtime held = held.module_held
in_use guest_module held = held.instance_held
in_use _ held = false

unfoldable pub freed_entry : ℕ → Held → List ℕ → Option Held
freed_entry index held [] = none
freed_entry index held (first ∷ later) =
    if held.module_held || not held.entry_wiped || not (index == first)
    then none
    else some (record held { entries = later; entry_wiped = false })

unfoldable pub first_is : ℕ → List ℕ → Bool
first_is index [] = false
first_is index (first ∷ later) = index == first

-- One action; `none` if it is wrong.
unfoldable pub step : Action → Held → Option Held
step (acquire r) held =
    if holds r held || not (supported r held) then none else some (put r true held)
step (release r) held =
    if not (holds r held) || in_use r held then none else some (given_back r held)
step input_copied held = if held.module_held then some (record held { copied = true }) else none
step (make_entry index) held = some (record held { entries = held.entries ++ index ∷ [] })
step (wipe_entry index) held =
    if first_is index held.entries then some (record held { entry_wiped = true }) else none
step (free_entry index) held = freed_entry index held held.entries
step wipe_metadata held = if held.runtime_held then none else some held
step wipe_stream held =
    if held.native_held then none else some (record held { stream_wiped = held.stream_held })
step (run_guest environment pages) held = if held.instance_held then some held else none

unfoldable pub run : List Action → Held → Option Held
run [] held = some held
run (action ∷ actions) held = do next ← step action held; run actions next

-- The source's `if (held) release(...)`.
unfoldable pub when : Bool → Action → List Action → List Action
when true action rest = action ∷ rest
when false action rest = rest

-- The whole log is right, and gives back everything that it takes.
abbrev pub IsBalanced : List Action → Type 0
IsBalanced actions = run actions nothing ≡ some nothing

-- The calls of the guest in a log: their environments and page limits.
unfoldable pub guest_runs : List Action → List (List (List ℕ) × ℕ)
guest_runs [] = []
guest_runs (run_guest environment pages ∷ actions) = (environment, pages) ∷ guest_runs actions
guest_runs (_ ∷ actions) = guest_runs actions
