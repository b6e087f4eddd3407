-- ===== src/Eink/Prompt/Waiting.antt =====
-- How the wait for the readiness marker ends.
use esp32_fx.Eink.Prompt.{
  not_found, unreadable, contents, MarkerFile, Marker, pending, ready, rejected,
  readiness_marker_state, wait_ready,
}
use esp32_fx.Prelude.{
  ℕ, zero, suc, ◌+◌, ◌≤◌, ◌<◌, ◌≡◌, ◌≢◌, ◌⊎◌, refl, subst, false, sym, List, [], length, take,
  length-take, take_all, same_text, same_text_eq, same_text_refl, codes, ap, ◌∙◌, inl, inr, ◌==◌,
  Bool-cases, arith,
}

-- The marker of a launch that is ready, as the launcher writes it.
abbrev pub ready_file : MarkerFile
ready_file = contents (codes "ready\n")

-- What the file is at the second at which a wait ends so: it is not there, it holds exactly the line
-- `ready`, or it is there and is anything else, unreadable included.
abbrev pub Says : Marker → MarkerFile → Type 0
Says pending file = file ≡ not_found
Says ready file = file ≡ ready_file
Says rejected file = (file ≢ not_found) × (file ≢ ready_file)

-- How a wait of so many seconds from a second on ends: the marker is first there at one of them, and
-- settles the wait, or it is at none.
pub record Settled (seconds waited : ℕ) (files : ℕ → MarkerFile) (out : Marker) : Type 0 where
  pub at_second : ℕ
  pub from : waited ≤ at_second
  pub until : at_second ≤ waited + seconds
  pub settles : Says out (files at_second)
  pub first : (t : ℕ) → waited ≤ t → t < at_second → files t ≡ not_found
  pub last : out ≡ pending → at_second ≡ waited + seconds

-- A file of more than six bytes gives seven or eight.
ready_bytes : (bytes : List ℕ) → take 8 bytes ≡ codes "ready\n" → bytes ≡ codes "ready\n"
ready_bytes bytes e =
    let short : length bytes ≤ 8 =
      omega (arith, ap (λ (xs : List ℕ). length xs) e, length-take 8 bytes) in
    sym (take_all 8 bytes short) ∙ e

contents_bytes : MarkerFile → List ℕ
contents_bytes not_found = []
contents_bytes unreadable = []
contents_bytes (contents bytes) = bytes

not_ready :
    (bytes : List ℕ)
    → same_text (take 8 bytes) (codes "ready\n") ≡ false
    → contents bytes ≢ ready_file
not_ready bytes e g =
    let is_ready = ap (λ file. same_text (take 8 (contents_bytes file)) (codes "ready\n")) g in
    absurd (cc (e, is_ready, same_text_refl (codes "ready\n")))

readiness_marker_state-Says : (file : MarkerFile) → Says (readiness_marker_state file) file
unfolding readiness_marker_state
readiness_marker_state-Says not_found = refl
readiness_marker_state-Says unreadable = (λ e. absurd (cc (e)), λ e. absurd (cc (e)))
readiness_marker_state-Says (contents bytes) =
    elim (Bool-cases (same_text (take 8 bytes) (codes "ready\n"))) [
      | inl e ↦
          rw e (ap contents (ready_bytes bytes (same_text_eq (take 8 bytes) (codes "ready\n") e)))
      | inr e ↦ elim (Bool-cases (same_text (take 8 bytes) (codes "failed\n"))) [
        | inl f ↦ rw (e, f) (λ g. absurd (cc (g)), λ g. not_ready bytes e g)
        | inr f ↦ rw (e, f) (λ g. absurd (cc (g)), λ g. not_ready bytes e g)
      ]
    ]

Marker-cases : (m : Marker) → (m ≡ pending) ⊎ (m ≡ ready) ⊎ (m ≡ rejected)
Marker-cases pending = inl refl
Marker-cases ready = inr (inl refl)
Marker-cases rejected = inr (inr refl)

-- The wait ends at the first second at which the marker's file is there, or at the last one: with `ready` if
-- the file then holds exactly the line `ready`, with `rejected` if it is there and is anything else or
-- cannot be read, and with `pending` if it was there at no second. No later file can change that.
pub wait_ready-Settled :
    (seconds waited : ℕ) (files : ℕ → MarkerFile)
    → Settled seconds waited files (wait_ready seconds waited files)
unfolding wait_ready
wait_ready-Settled zero waited files = record {
  at_second = waited;
  from = omega arith;
  until = omega arith;
  settles = readiness_marker_state-Says (files waited);
  first = λ t a b. absurd (omega arith);
  last = λ e. omega arith;
}
wait_ready-Settled (suc seconds) waited files =
    elim (Marker-cases (readiness_marker_state (files waited))) [
      | inl e ↦
          let later = wait_ready-Settled seconds (waited + 1) files in
          rw (e, wait_ready)
            (record {
              at_second = later.at_second;
              from = omega (arith, later.from);
              until = omega (arith, later.until);
              settles = later.settles;
              first = λ t a b. elim (Bool-cases (t == waited)) [
                | inl now ↦
                    ap files (ground (arith, now))
                    ∙ subst (λ m. Says m (files waited)) e
                        (readiness_marker_state-Says (files waited))
                | inr past ↦ later.first t (ground (arith, past)) b
              ];
              last = λ p. omega (arith, later.last p);
            })
      | inr (inl e) ↦
          rw (e, wait_ready)
            (record {
              at_second = waited;
              from = omega arith;
              until = omega arith;
              settles =
                  subst (λ m. Says m (files waited)) e (readiness_marker_state-Says (files waited));
              first = λ t a b. absurd (omega arith);
              last = λ p. absurd (cc);
            })
      | inr (inr e) ↦
          rw (e, wait_ready)
            (record {
              at_second = waited;
              from = omega arith;
              until = omega arith;
              settles =
                  subst (λ m. Says m (files waited)) e (readiness_marker_state-Says (files waited));
              first = λ t a b. absurd (omega arith);
              last = λ p. absurd (cc);
            })
    ]
