-- ===== src/Native/Local/Appending.antt =====
-- Chains of writes to a sink.
use esp32_fx.Native.Local.{◌&>◌, write_some, append}
use esp32_fx.Native.Sink.Write.{IsValid, write_body-Outcome, write_body_keeps}
use esp32_fx.Native.Sink.{ByteSink, received, KeepsBytes, write_body, sink_append}
use esp32_fx.Prelude.{
  ℕ, ◌*◌, ◌≡◌, ◌⊎◌, refl, sym, ap, ◌∙◌, inl, inr, Bool, true, false, Option, List, [], ◌∷◌, ◌++◌,
  length, take_all, append_assoc, append-nil, ◌==◌, arith,
}

-- A write keeps a sink's invariant and what it is; if it succeeds, the response is longer by `text`.
pub record Appends (s : ByteSink) (text : List ℕ) (out : Bool × ByteSink) : Type 0 where
  pub valid : IsValid out.1
  pub same_cap : out.1.cap ≡ s.cap
  pub same_owned : out.1.owned ≡ s.owned
  pub appended : out.0 ≡ true → received out.1 ≡ received s ++ text

pub &>-Appends :
    {s : ByteSink} {first second : List ℕ} (out : Bool × ByteSink)
    (next : ByteSink → Bool × ByteSink)
    → Appends s first out
    → ((t : ByteSink) → IsValid t → Appends t second (next t))
    → Appends s (first ++ second) (out &> next)
unfolding ◌&>◌
&>-Appends {s} {first} {second} (true, t) next a h =
    let b = h t a.valid in
    record {
      valid = b.valid;
      same_cap = b.same_cap ∙ a.same_cap;
      same_owned = b.same_owned ∙ a.same_owned;
      appended = λ e.
          b.appended e
          ∙ ap (λ r. r ++ second) (a.appended refl)
          ∙ append_assoc (received s) first second;
    }
&>-Appends (false, t) next a h = record {
  valid = a.valid;
  same_cap = a.same_cap;
  same_owned = a.same_owned;
  appended = λ e. absurd (cc);
}

module _ (realloc : List ℕ → ℕ → Option (List ℕ)) (keeps : KeepsBytes realloc) where
  -- A call takes all its bytes or none.
  pub write_body-whole :
      (text : List ℕ) (s : ByteSink)
      → IsValid s
      → let out = write_body realloc text 1 (length text) s in
        ((out.0 ≡ length text) × (received out.1 ≡ received s ++ text))
        ⊎ ((out.0 ≡ 0) × (received out.1 ≡ received s))
  write_body-whole text s v =
      let count : 1 * length text ≡ length text = omega arith in
      elim (write_body-Outcome realloc keeps s text 1 (length text) v (omega arith)) [
        | inl (_, w) ↦ inl (
          w.returned ∙ count,
          w.appended ∙ ap (λ t. received s ++ t) (take_all (1 * length text) text (omega arith)),
        )
        | inr (inl (_, r)) ↦ inr (r.returned, ap received r.flagged)
        | inr (inr (_, _, r)) ↦ inr (r.returned, ap received r.flagged)
      ]

  pub write_some-Appends :
      (text : List ℕ) (s : ByteSink) → IsValid s → Appends s text (write_some realloc text s)
  unfolding write_some
  write_some-Appends text s v =
      let k = write_body_keeps realloc keeps s text 1 (length text) v (omega arith) in
      record {
        valid = k.0;
        same_cap = k.2;
        same_owned = k.1;
        appended = λ e. elim (write_body-whole text s v) [
          | inl (_, got) ↦ got
          | inr (none_taken, _) ↦ absurd (ground (arith, none_taken, e))
        ];
      }

  pub append-Appends :
      (text : List ℕ) (s : ByteSink) → IsValid s → Appends s text (append realloc text s)
  unfolding append sink_append
  append-Appends [] s v = record {
    valid = v;
    same_cap = refl;
    same_owned = refl;
    appended = λ e. sym (append-nil (received s));
  }
  append-Appends (byte ∷ rest) s v =
      let text : List ℕ = byte ∷ rest in
      let k = write_body_keeps realloc keeps s text 1 (length text) v (omega arith) in
      let nonzero : (length text == 0) ≡ false = ground arith in
      rw nonzero (record {
        valid = k.0;
        same_cap = k.2;
        same_owned = k.1;
        appended = λ e. elim (write_body-whole text s v) [
          | inl (_, got) ↦ got
          | inr (none_taken, _) ↦ absurd (ground (arith, none_taken, e))
        ];
      })
