-- ===== src/Runner/Environment/Usable.antt =====
-- runtime/fx_wamr_runner.c: the guest's environment, described without its construction.
use esp32_fx.Runner.Environment.{
  Variable, entry_text, entry_of, make_wasi_env, take_entry, collect, variables,
}
use esp32_fx.Prelude.{
  ℕ, ◌+◌, ◌<◌, ◌≡◌, refl, sym, ◌∙◌, inl, inr, Bool, true, not, ◌&&◌, Option, none, some, List, [],
  ◌∷◌, ◌++◌, length, ltb, leb, if◌then◌else◌, ◌>>=◌, arith, All, Bool-cases, Option-cases,
  append_assoc, append-nil,
}

abbrev pub if_usable : List ℕ → Option (List ℕ)
if_usable value = if ltb 0 (length value) && leb (length value) 8192 then some value else none

module _ (getenv : List ℕ → Option (List ℕ)) where
  -- The value of a variable that can be passed on: it is set, not empty, and has 8,192 bytes at most.
  abbrev pub usable : List ℕ → Option (List ℕ)
  usable name = do value ← getenv name; if_usable value

  abbrev pub is_complete : Option (List ℕ) → Bool → Bool → Bool
  is_complete (some value) required later = later
  is_complete none required later = not required && later

  abbrev pub named : List ℕ → Option (List ℕ) → List (List ℕ) → List (List ℕ)
  named name none later = later
  named name (some value) later = entry_text name value ∷ later

  -- Every required variable is usable.
  abbrev pub complete : List Variable → Bool
  complete [] = true
  complete (variable ∷ variables) =
      is_complete (usable variable.name) variable.required (complete variables)

  -- The usable ones, in order.
  abbrev pub expected : List Variable → List (List ℕ)
  expected [] = []
  expected (variable ∷ variables) = named variable.name (usable variable.name) (expected variables)

abbrev pub IsShort : Variable → Type 0
IsShort variable = length variable.name < 0x10000

module _ (getenv : List ℕ → Option (List ℕ)) (has_memory : ℕ → Bool)
    (memory : (size : ℕ) → has_memory size ≡ true) where
  entry_of_lem :
      (name value : List ℕ)
      → length name < 0x10000
      → entry_of getenv has_memory name value ≡ (
          if ltb 0 (length value) && leb (length value) 8192
          then some (entry_text name value)
          else none)
  unfolding entry_of
  entry_of_lem name [] short = refl
  entry_of_lem name (byte ∷ value) short =
      ground (arith, memory (length name + length (byte ∷ value) + 2))

  make_wasi_env_lem :
      (name : List ℕ)
      → length name < 0x10000
      → make_wasi_env getenv has_memory name
        ≡ (do value ← usable getenv name; some (entry_text name value))
  unfolding make_wasi_env
  make_wasi_env_lem name short = elim (Option-cases (getenv name)) [
    | inl e ↦ rw e refl
    | inr (value, e) ↦
        rw (e, entry_of_lem name value short)
          (elim (Bool-cases (ltb 0 (length value) && leb (length value) 8192)) [
            | inl u ↦ rw u refl
            | inr u ↦ rw u refl
          ])
  ]

  -- The environment of the guest is complete exactly if both required variables are usable, and it then
  -- holds exactly the usable ones, in their order.
  pub collect_lem :
      (vs : List Variable) (owned : List (List ℕ))
      → All IsShort vs
      → ((collect getenv has_memory vs owned).0 ≡ complete getenv vs)
        × (complete getenv vs ≡ true
            → (collect getenv has_memory vs owned).1 ≡ owned ++ expected getenv vs)
  unfolding collect take_entry
  collect_lem [] owned short = (refl, λ _. sym (append-nil owned))
  collect_lem (v ∷ vs) owned (short, shorts) = elim (Option-cases (usable getenv v.name)) [
    | inr (value, e) ↦
        rw (make_wasi_env_lem v.name short, e)
          (let (ok, all) = collect_lem vs (owned ++ entry_text v.name value ∷ []) shorts in
            (
              ok,
              λ c. all c ∙ append_assoc owned (entry_text v.name value ∷ []) (expected getenv vs),
            ))
    | inl e ↦
        rw (make_wasi_env_lem v.name short, e)
          (elim (Bool-cases v.required) [
            | inl r ↦ rw r (refl, λ c. absurd (cc (c)))
            | inr o ↦ rw o (collect_lem vs owned shorts)
          ])
  ]

pub variables-IsShort : All IsShort variables
variables-IsShort = omega arith
