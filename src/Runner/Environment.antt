-- ===== src/Runner/Environment.antt =====
-- runtime/fx_wamr_runner.c: `make_wasi_env`, and the part of `main` that fills `owned_env` and `wasi_env`.
-- `getenv` and `malloc` are parameters; a C string is the list of its bytes before the NUL.
pub mod Usable
mod Tests
use esp32_fx.Prelude.{
  ℕ, ◌+◌, ◌-◌, Bool, true, false, ◌||◌, Option, none, some, List, [], ◌∷◌, ◌++◌, length, ltb,
  if◌then◌else◌, codes, ◌>>=◌,
}

-- MAX_ENV_VALUE_BYTES
abbrev pub max_env_value_bytes : ℕ
max_env_value_bytes = 8192

-- A call of `make_wasi_env` in `main`: the name, and whether the value is required.
pub record Variable : Type 0 where
  pub name : List ℕ
  pub required : Bool

-- The six calls, in their order.
abbrev pub variables : List Variable
variables =
    record { name = codes "AI_GATEWAY_API_KEY"; required = true }
    ∷ record { name = codes "FX_MODEL"; required = true }
    ∷ record { name = codes "FX_LOG"; required = false }
    ∷ record { name = codes "FX_TRACE_STDERR"; required = false }
    ∷ record { name = codes "FX_TRACE_SCOPES"; required = false }
    ∷ record { name = codes "FX_TRACE"; required = false }
    ∷ []

-- `name=value`, without the NUL
unfoldable pub entry_text : List ℕ → List ℕ → List ℕ
entry_text name value = name ++ b'=' ∷ value

module _ (getenv : List ℕ → Option (List ℕ)) (has_memory : ℕ → Bool) where
  -- Of a value that is set.
  pub entry_of : List ℕ → List ℕ → Option (List ℕ)
  entry_of name [] = none
  entry_of name (byte ∷ value) =
      let value_length = length (byte ∷ value) in
      if ltb max_env_value_bytes value_length || ltb (0xffffffff - value_length - 2) (length name)
      then none
      else if has_memory (length name + value_length + 2)
      then some (entry_text name (byte ∷ value))
      else none

  -- The pointer that is NULL is `none`. The flag `required` chooses a message only.
  pub make_wasi_env : List ℕ → Option (List ℕ)
  make_wasi_env name = do value ← getenv name; entry_of name value

  -- A block of `main`, with what `make_wasi_env` gave and with the blocks behind it, which go on from
  -- what `owned_env` holds: a required entry that is missing ends the launch, an optional one is left out.
  pub take_entry :
      Option (List ℕ)
      → Bool
      → (List (List ℕ) → Bool × List (List ℕ))
      → List (List ℕ)
      → Bool × List (List ℕ)
  take_entry (some entry) required later owned_env = later (owned_env ++ entry ∷ [])
  take_entry none true later owned_env = (false, owned_env)
  take_entry none false later owned_env = later owned_env

  -- The blocks in their order. The first component is whether the launch goes on, the second what
  -- `owned_env` holds, which is also what `wasi_env` holds.
  pub collect : List Variable → List (List ℕ) → Bool × List (List ℕ)
  collect [] owned_env = (true, owned_env)
  collect (variable ∷ variables) owned_env =
      take_entry (make_wasi_env variable.name) variable.required (collect variables) owned_env
