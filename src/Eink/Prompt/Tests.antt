-- ===== src/Eink/Prompt/Tests.antt =====
-- Prompts and markers at concrete inputs.
use esp32_fx.Eink.Prompt.Joined.{join_prompt_lem}
use esp32_fx.Eink.Prompt.Waiting.{Settled, wait_ready-Settled}
use esp32_fx.Eink.Prompt.{
  MarkerFile, not_found, contents, ready, join_prompt, wait_ready, readiness_marker_state,
}
use esp32_fx.Prelude.{ℕ, ◌≡◌, refl, Bool, true, some, [], ◌∷◌, codes, ltb, if◌then◌else◌, same_text}

abbrev always : ℕ → Bool
always n = true

join_prompt_lem_example : join_prompt always (codes "say" ∷ codes "hi" ∷ []) ≡ some (codes "say hi")
join_prompt_lem_example = join_prompt_lem always (codes "say" ∷ codes "hi" ∷ []) (λ n. refl)

-- The file appears at the second 1.
abbrev files : ℕ → MarkerFile
files second = if ltb second 1 then not_found else contents (codes "ready\n")

wait_ready-Settled_example : Settled 2 0 files ready
unfolding wait_ready readiness_marker_state same_text
wait_ready-Settled_example = wait_ready-Settled 2 0 files
