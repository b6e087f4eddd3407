-- ===== src/Eink/Prompt.antt =====
-- runtime/fx_eink.c: `join_prompt`, which makes one text of the arguments, and the wait of `main` for the
-- readiness marker with `readiness_marker_state`. An argument is the list of its bytes before the NUL.
-- Whether `malloc` finds memory, and the marker's file at each second, are parameters.
pub mod Joined
pub mod Waiting
mod Tests
use esp32_fx.Prelude.{
  ℕ, zero, suc, ◌+◌, Bool, true, false, ◌||◌, Option, none, some, List, [], ◌∷◌, ◌++◌, length, take,
  ltb, ◌==◌, if◌then◌else◌, add_size, sub_size, same_text, codes, ◌>>=◌,
}

-- MAX_PROMPT_BYTES
abbrev pub max_prompt_bytes : ℕ
max_prompt_bytes = 4096

-- The first loop. `later` says that this is not the first argument; `none` is EFBIG.
pub prompt_length : Bool → ℕ → List (List ℕ) → Option ℕ
prompt_length later length_so_far [] = some length_so_far
prompt_length later length_so_far (part ∷ argv) =
    let separator = if later then 1 else 0 in
    let rest = prompt_length true (add_size length_so_far (separator + length part)) argv in
    if ltb (sub_size max_prompt_bytes length_so_far) separator
      || ltb (sub_size (sub_size max_prompt_bytes length_so_far) separator) (length part)
    then none
    else rest

-- The second loop.
pub prompt_bytes : Bool → List (List ℕ) → List ℕ
prompt_bytes later [] = []
prompt_bytes later (part ∷ argv) =
    (if later then b' ' ∷ [] else []) ++ (part ++ prompt_bytes true argv)

-- Behind the first loop.
pub allocate_prompt : (ℕ → Bool) → List (List ℕ) → ℕ → Option (List ℕ)
allocate_prompt has_memory argv total =
    if total == 0 || ltb max_prompt_bytes total
    then none
    else if has_memory (add_size total 1)
    then some (prompt_bytes false argv)
    else none

-- `argv` from `first` on.
pub join_prompt : (ℕ → Bool) → List (List ℕ) → Option (List ℕ)
join_prompt has_memory argv = do
  total ← prompt_length false 0 argv
  allocate_prompt has_memory argv total

-- What `open` and `read` find: no file, another error, or the bytes.
pub data MarkerFile : Type 0 where
  not_found : MarkerFile
  unreadable : MarkerFile
  contents : List ℕ → MarkerFile

-- The results 0, 1 and -1.
pub data Marker : Type 0 where
  pending : Marker
  ready : Marker
  rejected : Marker

-- `read` gives eight bytes at most.
pub readiness_marker_state : MarkerFile → Marker
readiness_marker_state not_found = pending
readiness_marker_state unreadable = rejected
readiness_marker_state (contents bytes) =
    if same_text (take 8 bytes) (codes "ready\n")
    then ready
    else if same_text (take 8 bytes) (codes "failed\n")
    then rejected
    else rejected

-- The loop from the second `waited` on, with `seconds` left; `files` is the file at each second.
pub wait_ready : ℕ → ℕ → (ℕ → MarkerFile) → Marker
wait_ready zero waited files = readiness_marker_state (files waited)
wait_ready (suc seconds) waited files =
    let later = wait_ready seconds (waited + 1) files in
    elim (readiness_marker_state (files waited)) as (λ _. Marker) [
      | pending ↦ later
      | ready ↦ ready
      | rejected ↦ rejected
    ]
