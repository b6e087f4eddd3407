-- ===== src/Runner/Environment/Tests.antt =====
-- The environment of the guest at concrete inputs.
use esp32_fx.Runner.Environment.{
  make_wasi_env, entry_of, collect, take_entry, variables, entry_text,
}
use esp32_fx.Prelude.{
  ℕ, Option, some, List, [], ◌≡◌, refl, true, false, if◌then◌else◌, same_text, codes,
}

abbrev model_only : List ℕ → Option (List ℕ)
model_only name = if same_text name (codes "FX_MODEL") then some (codes "m") else some []

make_wasi_env_test :
    make_wasi_env model_only (λ size. true) (codes "FX_MODEL") ≡ some (codes "FX_MODEL=m")
unfolding make_wasi_env entry_of entry_text same_text
make_wasi_env_test = refl

-- The key is required, and empty.
collect_test : collect model_only (λ size. true) variables [] ≡ (false, [])
unfolding collect take_entry make_wasi_env entry_of same_text
collect_test = refl
