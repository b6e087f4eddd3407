-- ===== src/Tools/Project/Laws.antt =====
-- runtime/fx_example_tools.c: what is read of a file of the project, and how battery.sh is replaced.
use esp32_fx.Files.{ReadEvent, interrupted, read_failed, chunk_ready}
use esp32_fx.Files.Content.{Brings}
use esp32_fx.Tools.{file_limit}
use esp32_fx.Tools.Project.{
  ToolReply, reply, denied_reply, ReadEnd, file_read, file_long, file_broken, read_rest, read_reply,
  read_project_file, WriteEvent, write_interrupted, write_failed, wrote, write_rest, Project,
  WriteAnswers, replaced, replace_unless, replace_project_file,
}
use esp32_fx.Prelude.{
  ℕ, zero, suc, ◌+◌, ◌-◌, ◌≤◌, ◌<◌, ◌≡◌, ◌⊎◌, refl, sym, ap, ◌∙◌, inl, inr, pos, minus_three, Bool,
  true, false, not, ◌||◌, Option, none, some, List, [], ◌∷◌, ◌++◌, length, take, drop, blit, min,
  ltb, if◌then◌else◌, codes, arith, length-blit, take-blit, length-append, append_assoc, append-nil,
  take-append-drop, Bool-cases, subst,
}

-- What the loop gives, from `used` bytes on, for a file whose other bytes are `content`.
abbrev Ends : ℕ → ℕ → List ℕ → List ℕ → ReadEnd → Type 0
Ends bound used out content (file_read count after) =
    (count ≡ used + length content)
    × (count ≤ bound)
    × (take count after ≡ take used out ++ content)
Ends bound used out content (file_long after) = bound < used + length content
Ends bound used out content (file_broken after) = ⊥

read_rest-long :
    (bound : ℕ) (bytes : List ℕ) (events : List ReadEvent) (used : ℕ) (out : List ℕ)
    → 0 < length bytes
    → bound - used < length bytes
    → read_rest bound (chunk_ready bytes ∷ events) used out
      ≡ file_long (blit out used (take (bound - used) bytes))
unfolding read_rest
read_rest-long bound bytes events used out some_bytes h = ground (arith)

read_rest-chunk :
    (bound : ℕ) (bytes : List ℕ) (events : List ReadEvent) (used : ℕ) (out : List ℕ)
    → 0 < length bytes
    → used + length bytes ≤ bound
    → read_rest bound (chunk_ready bytes ∷ events) used out
      ≡ read_rest bound events (used + length bytes) (blit out used bytes)
unfolding read_rest
read_rest-chunk bound bytes events used out some_bytes h = ground (arith)

carry :
    (bound used : ℕ) (out content bytes rest : List ℕ) (end : ReadEnd)
    → content ≡ bytes ++ rest
    → used + length bytes ≤ length out
    → Ends bound (used + length bytes) (blit out used bytes) rest end
    → Ends bound used out content end
carry bound used out content bytes rest (file_read count after) whole room (all, fits, kept) = (
  omega (arith, all, ap length whole, length-append bytes rest),
  fits,
  kept
      ∙ ap (λ c. c ++ rest) (take-blit out used bytes (used + length bytes) refl room)
      ∙ append_assoc (take used out) bytes rest
      ∙ ap (λ c. take used out ++ c) (sym whole),
)
carry bound used out content bytes rest (file_long after) whole room long =
    omega (arith, long, ap length whole, length-append bytes rest)
carry bound used out content bytes rest (file_broken after) whole room no_way = no_way

read_rest-Ends :
    (bound : ℕ) (events : List ReadEvent) (used : ℕ) (out content : List ℕ)
    → Brings events content
    → used ≤ bound
    → bound ≤ length out
    → Ends bound used out content (read_rest bound events used out)
unfolding read_rest
read_rest-Ends bound [] used out content whole u b = (
  omega (arith, ap length whole),
  u,
  sym (append-nil (take used out)) ∙ ap (λ c. take used out ++ c) (sym whole),
)
read_rest-Ends bound (interrupted ∷ events) used out content brings u b =
    read_rest-Ends bound events used out content brings u b
read_rest-Ends bound (read_failed ∷ events) used out content brings u b = absurd (omega arith)
read_rest-Ends bound (chunk_ready bytes ∷ events) used out content
      (some_bytes, (rest, whole, later)) u b =
    elim (Bool-cases (ltb (bound - used) (length bytes))) [
      | inl e ↦
          (let long : bound - used < length bytes = ground (arith, e) in
            subst (Ends bound used out content)
              (sym (read_rest-long bound bytes events used out some_bytes long))
              (omega (arith, ap length whole, length-append bytes rest)))
      | inr e ↦
          (let fits : used + length bytes ≤ bound = ground (arith, e) in
            subst (Ends bound used out content)
              (sym (read_rest-chunk bound bytes events used out some_bytes fits))
              (carry bound used out content bytes rest _ whole (omega arith) (
                read_rest-Ends bound events (used + length bytes) (blit out used bytes) rest later
                  fits (omega (arith, length-blit out used bytes)))))
    ]

-- What a call that reads a file of the project answers.
abbrev pub IsWhole : ℕ → List ℕ → ToolReply → Type 0
IsWhole bound content r =
    (length content ≤ bound
      → (r.result ≡ pos (length content))
        × (r.status ≡ 0)
        × (take (length content) r.out ≡ content))
    × (bound < length content → (r.result ≡ minus_three) × (r.status ≡ 1))

read_reply-IsWhole :
    (bound : ℕ) (out content : List ℕ) (failed : ToolReply) (end : ReadEnd)
    → Ends bound 0 out content end
    → IsWhole bound content (read_reply failed end)
unfolding read_reply
read_reply-IsWhole bound out content failed (file_read count after) (all, fits, kept) = (
  λ _.
      let count_is : count ≡ length content = omega (arith, all) in
      (ap pos count_is, refl, ap (λ n. take n after) (sym count_is) ∙ kept),
  λ long. absurd (omega (arith, all, fits, long)),
)
read_reply-IsWhole bound out content failed (file_long after) long =
    (λ fits. absurd (omega arith), λ _. (refl, refl))
read_reply-IsWhole bound out content failed (file_broken after) no_way = absurd no_way

length-denied_reply : (out : List ℕ) (cap : ℕ) → length (denied_reply out cap).out ≡ length out
unfolding denied_reply reply
length-denied_reply out cap = elim (Bool-cases (ltb cap 27)) [
  | inl e ↦ rw e refl
  | inr e ↦ rw e (length-blit out 0 (codes "file denied or unavailable\n"))
]

-- If no call of `read` fails, a file is given back whole, with status 0, if it fits the buffer and has 4,096
-- bytes at most, and refused with -3 and status 1 if not: it is never cut, however the kernel cuts it.
pub read_project_file-IsWhole :
    (out : List ℕ) (cap : ℕ) (events : List ReadEvent) (content : List ℕ)
    → Brings events content
    → cap ≤ length out
    → IsWhole (min cap file_limit) content (read_project_file out cap events)
unfolding read_project_file
read_project_file-IsWhole out cap events content brings room =
    read_reply-IsWhole (min cap file_limit) (denied_reply out cap).out content
      (denied_reply out cap) _
      (read_rest-Ends (min cap file_limit) events 0 (denied_reply out cap).out content brings
        (omega arith) (omega (arith, length-denied_reply out cap)))

-- Everything that the loop over `write` reports as written is written, and nothing else.
write_rest-IsWhole :
    (events : List WriteEvent) (text : List ℕ)
    → (write_rest events text).0 ≡ true
    → (write_rest events text).1 ≡ text
unfolding write_rest
write_rest-IsWhole events [] ok = refl
write_rest-IsWhole [] (byte ∷ text) ok = refl
write_rest-IsWhole (write_interrupted ∷ events) (byte ∷ text) ok =
    write_rest-IsWhole events (byte ∷ text) ok
write_rest-IsWhole (write_failed ∷ events) (byte ∷ text) ok = absurd (cc (ok))
write_rest-IsWhole (wrote zero ∷ events) (byte ∷ text) ok = absurd (cc (ok))
write_rest-IsWhole (wrote (suc count) ∷ events) (byte ∷ text) ok = ap (◌∷◌ byte) (
    ap (λ rest. take count text ++ rest) (write_rest-IsWhole events (drop count text) ok)
    ∙ take-append-drop count text)

-- How a call that replaces battery.sh leaves the project.
abbrev pub IsAtomic : Bool → List ℕ → Project → ToolReply × Project → Type 0
IsAtomic unlinks content before (r, after) =
    ((r.status ≡ 0) × (after.battery ≡ content) × (after.temporary ≡ none))
    ⊎ ((r.status ≡ 1)
        × (after.battery ≡ before.battery)
        × (unlinks ≡ true → after.temporary ≡ before.temporary))

status-reply :
    (out : List ℕ) (cap : ℕ) (failed : Bool) (text : List ℕ)
    → (reply out cap failed text).status ≡ (if failed then 1 else 0)
unfolding reply
status-reply out cap failed text = elim (Bool-cases (ltb cap (length text))) [
  | inl e ↦ rw e refl
  | inr e ↦ rw e refl
]

status-denied_reply : (out : List ℕ) (cap : ℕ) → (denied_reply out cap).status ≡ 1
unfolding denied_reply
status-denied_reply out cap = status-reply out cap true _

replaced-IsAtomic :
    (answers : WriteAnswers) (out : List ℕ) (cap : ℕ) (content : List ℕ) (project : Project)
    (written : Bool × List ℕ)
    → (written.0 ≡ true → written.1 ≡ content)
    → project.temporary ≡ none
    → IsAtomic answers.unlinks content project (replaced answers out cap project written)
unfolding replaced
replaced-IsAtomic answers out cap content project (ok, text) all fresh =
    elim (Bool-cases (
      not ok
      || (not answers.chmods || not answers.syncs)
      || not answers.closes
      || not answers.renames)) [
        | inl e ↦ rw e (inr (status-denied_reply out cap, refl, λ u. rw u (sym fresh)))
        | inr e ↦ rw e (inl (status-reply _ cap false _, all (ground (arith, e)), refl))
      ]

replace_unless-IsAtomic :
    (answers : WriteAnswers) (out : List ℕ) (cap : ℕ) (content : List ℕ) (project : Project)
    (temporary : Option (List ℕ))
    → project.temporary ≡ temporary
    → IsAtomic answers.unlinks content project
        (replace_unless answers out cap content project temporary)
unfolding replace_unless replaced
replace_unless-IsAtomic answers out cap content project (some text) there =
    inr (status-denied_reply out cap, refl, λ _. refl)
replace_unless-IsAtomic answers out cap content project none fresh =
    elim (Bool-cases answers.creates) [
      | inl e ↦ rw e (
          replaced-IsAtomic answers out cap content project (write_rest answers.writes content)
            (write_rest-IsWhole answers.writes content) fresh)
      | inr e ↦ rw e (inr (status-denied_reply out cap, refl, λ _. refl))
    ]

-- A call that replaces battery.sh either reports success and leaves the whole new content there and no
-- temporary file, or reports a failure and leaves battery.sh as it was; the temporary file of a failure is
-- removed if `unlinkat` succeeds.
pub replace_project_file-IsAtomic :
    (answers : WriteAnswers) (out : List ℕ) (cap : ℕ) (content : List ℕ) (project : Project)
    → IsAtomic answers.unlinks content project
        (replace_project_file answers out cap content project)
unfolding replace_project_file
replace_project_file-IsAtomic answers out cap content project =
    replace_unless-IsAtomic answers out cap content project project.temporary refl
