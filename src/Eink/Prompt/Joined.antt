-- ===== src/Eink/Prompt/Joined.antt =====
-- What `join_prompt` makes of the arguments.
use esp32_fx.Eink.Prompt.{
  max_prompt_bytes, prompt_length, prompt_bytes, allocate_prompt, join_prompt,
}
use esp32_fx.Prelude.{
  ℕ, ◌+◌, ◌≤◌, ◌≡◌, refl, sym, ap, ◌∙◌, inl, inr, Bool, true, false, ◌&&◌, none, some, List, [],
  ◌∷◌, ◌++◌, length, leb, if◌then◌else◌, add_size, length-append, append-nil, arith, Bool-cases,
}

-- The arguments with one space between each two.
abbrev pub spaced : List (List ℕ) → List ℕ
spaced [] = []
spaced (part ∷ []) = part
spaced (part ∷ next ∷ argv) = part ++ (b' ' ∷ spaced (next ∷ argv))

prompt_bytes-spaced :
    (part : List ℕ) (argv : List (List ℕ)) → part ++ prompt_bytes true argv ≡ spaced (part ∷ argv)
unfolding prompt_bytes
prompt_bytes-spaced part [] = append-nil part
prompt_bytes-spaced part (next ∷ argv) =
    ap (λ more. part ++ (b' ' ∷ more)) (prompt_bytes-spaced next argv)

prompt_length_lem :
    (later : Bool) (n : ℕ) (argv : List (List ℕ))
    → n ≤ max_prompt_bytes
    → prompt_length later n argv ≡ (
        if leb (n + length (prompt_bytes later argv)) max_prompt_bytes
        then some (n + length (prompt_bytes later argv))
        else none)
unfolding prompt_length prompt_bytes
prompt_length_lem later n [] small = ground (arith)
prompt_length_lem false n (part ∷ argv) small = ground (
  arith,
  length-append part (prompt_bytes true argv),
  prompt_length_lem true (add_size n (0 + length part)) argv,
)
prompt_length_lem true n (part ∷ argv) small = ground (
  arith,
  length-append part (prompt_bytes true argv),
  prompt_length_lem true (add_size n (1 + length part)) argv,
)

join_spaced : (argv : List (List ℕ)) → prompt_bytes false argv ≡ spaced argv
unfolding prompt_bytes
join_spaced [] = refl
join_spaced (part ∷ argv) = prompt_bytes-spaced part argv

-- While memory lasts, `join_prompt` makes of the arguments one text with a space between each two, if that
-- text has at least one byte and at most 4,096; and refuses them otherwise.
pub join_prompt_lem :
    (has_memory : ℕ → Bool) (argv : List (List ℕ))
    → ((n : ℕ) → has_memory n ≡ true)
    → join_prompt has_memory argv ≡ (
        if leb 1 (length (spaced argv)) && leb (length (spaced argv)) max_prompt_bytes
        then some (spaced argv)
        else none)
unfolding join_prompt allocate_prompt
join_prompt_lem has_memory argv memory =
    let total = length (spaced argv) in
    let counted : prompt_length false 0 argv
        ≡ (if leb total max_prompt_bytes then some total else none) =
      rw (sym (join_spaced argv)) (
        prompt_length_lem false 0 argv (omega arith)
        ∙ ap (λ (t : ℕ). if leb t max_prompt_bytes then some t else none) (omega arith)) in
    elim (Bool-cases (leb total max_prompt_bytes)) [
      | inl fits ↦
          rw (counted, fits, join_prompt, memory (add_size total 1), join_spaced argv)
            (ground (arith, fits))
      | inr over ↦ rw (counted, over, join_prompt) (ground (arith, over))
    ]
