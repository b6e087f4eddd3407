-- ===== src/Native/Sink/Write.antt =====
-- What `write_body` does to the response, on every branch.
use mathlib.Core.Option.{Option}
use esp32_fx.Prelude.{
  ap, ℕ, ◌+◌, ◌*◌, ◌/◌, ◌≤◌, ◌<◌, ◌≡◌, ◌⊎◌, refl, inl, append-nil, zero, suc, inr, true, none, some,
  List, ◌++◌, ltb, ◌==◌, arith, length, take, length-blit, take-blit, length-take, size_max, word,
  add_size, mul_size, sub_size, Option-cases, Bool-cases, not, ◌&&◌, ◌≢◌,
}
use esp32_fx.Native.Sink.{
  ByteSink, received, max_stream_bytes, next_capacity, double_capacity, KeepsBytes, grow,
  write_counted, write_body, refuse, accept,
}

-- The invariant of a sink: the response lies inside the block, and a block that the sink does not
-- own is the caller's whole buffer. An owned sink starts with no block and may grow to the limit.
pub record IsValid (s : ByteSink) : Type 0 where
  pub within : s.len ≤ s.cap
  pub cap_word : s.cap < word
  pub owned_cap : s.owned ≡ true → s.cap ≡ max_stream_bytes
  pub fits : (s.cap ≤ length s.bytes) ⊎ ((s.owned ≡ true) × (s.len ≡ 0))

-- What a call that takes all `count` bytes leaves.
pub record Wrote (s : ByteSink) (contents : List ℕ) (count : ℕ) (out : ℕ × ByteSink) : Type 0 where
  pub valid : IsValid out.1
  pub returned : out.0 ≡ count
  pub same_cap : out.1.cap ≡ s.cap
  pub same_owned : out.1.owned ≡ s.owned
  pub same_overflow : out.1.overflow ≡ s.overflow
  pub appended : received out.1 ≡ received s ++ take count contents

-- What a call that takes nothing leaves.
pub record Refused (s : ByteSink) (out : ℕ × ByteSink) : Type 0 where
  pub valid : IsValid out.1
  pub returned : out.0 ≡ 0
  pub flagged : out.1 ≡ record s { overflow = true }

mul_no_wrap : (a b : ℕ) → b ≤ size_max / a → a * b < word
mul_no_wrap a b h = grind arith

mul_wraps : (a b : ℕ) → a ≢ 0 → size_max / a < b → size_max < a * b
mul_wraps a b nz h = grind arith

next_capacity-max :
    (w : ℕ) → w ≤ max_stream_bytes → next_capacity max_stream_bytes w ≡ max_stream_bytes
unfolding next_capacity double_capacity
next_capacity-max w h = ground arith

pub len-le-length : {s : ByteSink} → IsValid s → s.len ≤ length s.bytes
len-le-length v = omega arith

-- What `grow` leaves: the same response, in a block with room for `wanted` bytes.
record Grown (s : ByteSink) (wanted : ℕ) (g : ByteSink) : Type 0 where
  same_len : g.len ≡ s.len
  same_cap : g.cap ≡ s.cap
  same_owned : g.owned ≡ s.owned
  same_overflow : g.overflow ≡ s.overflow
  same_received : received g ≡ received s
  room : (s.cap ≤ length g.bytes) ⊎ ((wanted ≡ 0) × (g.bytes ≡ s.bytes))

module _ (realloc : List ℕ → ℕ → Option (List ℕ)) (keeps : KeepsBytes realloc) where
  realloc-Grown :
      (s : ByteSink) (wanted : ℕ) (new : List ℕ)
      → IsValid s
      → s.owned ≡ true
      → wanted ≤ s.cap
      → realloc s.bytes (next_capacity s.cap wanted) ≡ some new
      → Grown s wanted (record s { bytes = new; cap = next_capacity s.cap wanted })
  realloc-Grown s wanted new v own hi e =
      let c : s.cap ≡ max_stream_bytes = v.owned_cap own in
      let n : next_capacity s.cap wanted ≡ s.cap = rw c (next_capacity-max wanted (omega arith)) in
      let k = keeps s.bytes (next_capacity s.cap wanted) new e in
      record {
        same_len = refl;
        same_cap = n;
        same_owned = refl;
        same_overflow = refl;
        same_received = k.1 s.len (len-le-length v) (omega arith);
        room = inl (omega arith);
      }

  grow-Grown :
      {s g : ByteSink} (wanted : ℕ)
      → IsValid s
      → wanted ≤ s.cap
      → grow realloc s wanted ≡ some g
      → Grown s wanted g
  unfolding grow
  grow-Grown {s} {g} wanted v hi h =
      elim (Option-cases (realloc s.bytes (next_capacity s.cap wanted))) [
        | inl e ↦ ground (arith, e)
        | inr (new, e) ↦ ground (arith, realloc-Grown s wanted new v)
      ]

accept-IsValid :
    (s g : ByteSink) (contents : List ℕ) (count : ℕ)
    → IsValid s
    → Grown s (s.len + count) g
    → s.len + count ≤ s.cap
    → IsValid (accept g contents count).1
unfolding accept
accept-IsValid s g contents count v r fit =
    ground (arith, length-blit g.bytes g.len (take count contents))

-- The bytes after the copy, into a block that has room for it.
received-accept :
    (s g : ByteSink) (contents : List ℕ) (count : ℕ)
    → IsValid s
    → Grown s (s.len + count) g
    → count ≤ length contents
    → s.len + count ≤ s.cap
    → received (accept g contents count).1 ≡ received s ++ take count contents
unfolding accept
received-accept s g contents zero v r h fit = ground (arith, append-nil (take s.len s.bytes))
received-accept s g contents (suc n) v r h fit = ground (
  arith,
  take-blit g.bytes g.len (take (suc n) contents) (add_size g.len (suc n)),
  length-take (suc n) contents,
)

accept-Wrote :
    (s g : ByteSink) (contents : List ℕ) (count : ℕ)
    → IsValid s
    → Grown s (s.len + count) g
    → count ≤ length contents
    → s.len + count ≤ s.cap
    → Wrote s contents count (accept g contents count)
accept-Wrote s g contents count v r h fit = record {
  valid = accept-IsValid s g contents count v r fit;
  returned = unfold accept in refl;
  same_cap = unfold accept in r.same_cap;
  same_owned = unfold accept in r.same_owned;
  same_overflow = unfold accept in r.same_overflow;
  appended = received-accept s g contents count v r h fit;
}

refuse-Refused : (s : ByteSink) → IsValid s → Refused s (refuse s)
unfolding refuse
refuse-Refused s v = record {
  valid = record {
    within = v.within;
    cap_word = v.cap_word;
    owned_cap = v.owned_cap;
    fits = v.fits;
  };
  returned = refl;
  flagged = refl;
}

-- The three ways that a call of `write_body` for `count` bytes can end.
abbrev pub Outcome : (List ℕ → ℕ → Option (List ℕ)) → ByteSink → List ℕ → ℕ → ℕ × ByteSink → Type 0
Outcome realloc s contents count out =
    ((s.len + count ≤ s.cap) × Wrote s contents count out)
    ⊎ ((s.cap < s.len + count) × Refused s out)
    ⊎ ((s.owned ≡ true) × (realloc s.bytes max_stream_bytes ≡ none) × Refused s out)

module _ (realloc : List ℕ → ℕ → Option (List ℕ)) where
  -- Only an owned sink can fail to grow, and it always asks for the whole limit.
  grow_fails :
      (s : ByteSink) (wanted : ℕ)
      → IsValid s
      → wanted ≤ s.cap
      → grow realloc s wanted ≡ none
      → (s.owned ≡ true) × (realloc s.bytes max_stream_bytes ≡ none)
  unfolding grow
  grow_fails s wanted v hi h =
      let own : s.owned ≡ true = ground arith in
      let e : next_capacity s.cap wanted ≡ max_stream_bytes =
        rw (v.owned_cap own) (next_capacity-max wanted (omega (arith, v.owned_cap own))) in
      (own, rw (← e) (ground (arith, own)))

  module _ (keeps : KeepsBytes realloc) where
    write_counted-Outcome :
        (s : ByteSink) (contents : List ℕ) (count : ℕ)
        → IsValid s
        → count ≤ length contents
        → count < word
        → Outcome realloc s contents count (write_counted realloc contents count s)
    unfolding write_counted
    write_counted-Outcome s contents count v h small =
        elim (Bool-cases (ltb (sub_size s.cap s.len) count)) [
          | inl over ↦ rw over (inr (inl (ground arith, refuse-Refused s v)))
          | inr fits ↦
              let room : s.len + count ≤ s.cap = ground arith in
              let sum : add_size s.len count ≡ s.len + count = omega arith in
              rw (fits, sum)
                (elim (Option-cases (grow realloc s (s.len + count))) [
                  | inl e ↦
                      let (own, full) = grow_fails s (s.len + count) v room e in
                      rw e (inr (inr (own, full, refuse-Refused s v)))
                  | inr (g, e) ↦
                      let grown = grow-Grown realloc keeps (s.len + count) v room e in
                      rw e (inl (room, accept-Wrote s g contents count v grown h room))
                ])
        ]

    -- If `realloc` keeps the bytes it is given, a call of `write_body` on a valid sink takes all
    -- its bytes exactly when they fit into what is left of the capacity (and, for an owned sink,
    -- `realloc` gives the whole limit): the response is then longer by those bytes, and the call
    -- returns their number. Otherwise it returns 0, sets the overflow flag and changes nothing
    -- else. Either way the sink stays valid.
    pub write_body-Outcome :
        (s : ByteSink) (contents : List ℕ) (size nmemb : ℕ)
        → IsValid s
        → size * nmemb ≤ length contents
        → Outcome realloc s contents (size * nmemb) (write_body realloc contents size nmemb s)
    unfolding write_body
    write_body-Outcome s contents size nmemb v h =
        elim (Bool-cases (not (size == 0) && ltb (size_max / size) nmemb)) [
          | inl over ↦
              rw over (inr (inl (ground (arith, mul_wraps size nmemb), refuse-Refused s v)))
          | inr fits ↦
              let small : size * nmemb < word = ground (arith, mul_no_wrap size nmemb) in
              let exact : mul_size size nmemb ≡ size * nmemb = omega arith in
              rw (fits, exact) (write_counted-Outcome s contents (size * nmemb) v h small)
        ]

    -- What every call keeps of a valid sink.
    pub write_body_keeps :
        (s : ByteSink) (contents : List ℕ) (size nmemb : ℕ)
        → IsValid s
        → size * nmemb ≤ length contents
        → let s' = (write_body realloc contents size nmemb s).1 in
          IsValid s' × (s'.owned ≡ s.owned) × (s'.cap ≡ s.cap)
    write_body_keeps s contents size nmemb v h =
        elim (write_body-Outcome s contents size nmemb v h) [
          | inl (_, w) ↦ (w.valid, w.same_owned, w.same_cap)
          | inr (inl (_, r)) ↦ (
            r.valid,
            ap (λ (t : ByteSink). t.owned) r.flagged,
            ap (λ (t : ByteSink). t.cap) r.flagged,
          )
          | inr (inr (_, _, r)) ↦ (
            r.valid,
            ap (λ (t : ByteSink). t.owned) r.flagged,
            ap (λ (t : ByteSink). t.cap) r.flagged,
          )
        ]
