-- ===== src/Native/Local/Catalog.antt =====
-- When `serve_local_model_catalog` answers, and with what.
use esp32_fx.Native.Local.Asks.{
  AsksCatalog, IsModelId, is_model_id_safe-IsModelId, unsafe-IsModelId, asks_catalog-AsksCatalog,
  AsksCatalog-asks_catalog,
}
use esp32_fx.Native.Local.Answers.{catalog_text, catalog_text-eq}
use esp32_fx.Native.Local.Appending.{Appends, write_some-Appends, &>-Appends}
use esp32_fx.Native.Local.{
  Environment, Served, not_local, failed, served, is_model_id_safe, asks_catalog, catalog_prefix,
  catalog_tail, ◌&>◌, write_some, serve_local_model_catalog,
}
use esp32_fx.Native.Sink.Write.{IsValid, len-le-length, write_body-Outcome}
use esp32_fx.Native.Sink.{ByteSink, received, KeepsBytes, max_stream_bytes}
use esp32_fx.Prelude.{
  ℕ, ◌+◌, ◌<◌, ◌≡◌, ◌⊎◌, refl, sym, ap, subst, ◌∙◌, inl, inr, Bool, true, false, Option, none, List,
  ◌++◌, length, length-take, length-append, arith, Bool-cases,
}

-- No room for so many bytes, or an owned sink that got no memory.
abbrev pub Fails : (List ℕ → ℕ → Option (List ℕ)) → ByteSink → ℕ → Type 0
Fails realloc s count =
    (s.cap < s.len + count)
    ⊎ ((s.owned ≡ true) × (block : List ℕ) × (realloc block max_stream_bytes ≡ none))

length-received : (s : ByteSink) → IsValid s → length (received s) ≡ s.len
length-received s v = omega (arith, length-take s.len s.bytes, len-le-length v)

&>-Fails :
    (realloc : List ℕ → ℕ → Option (List ℕ)) {s : ByteSink} {first : List ℕ} (second : List ℕ)
    (out : Bool × ByteSink) (next : ByteSink → Bool × ByteSink)
    → IsValid s
    → Appends s first out
    → (out.0 ≡ false → Fails realloc s (length first))
    → ((t : ByteSink) → IsValid t → (next t).0 ≡ false → Fails realloc t (length second))
    → (out &> next).0 ≡ false
    → Fails realloc s (length (first ++ second))
unfolding ◌&>◌
&>-Fails realloc {s} {first} second (true, t) next v a h1 h2 e = elim (h2 t a.valid e) [
  | inl full ↦
      let more : t.len ≡ s.len + length first =
        sym (length-received t a.valid)
        ∙ ap (λ (text : List ℕ). length text) (a.appended refl)
        ∙ length-append (received s) first
        ∙ ap (λ n. n + length first) (length-received s v) in
      inl (omega (arith, full, more, a.same_cap, length-append first second))
  | inr (own, block, no_memory) ↦ inr (sym a.same_owned ∙ own, block, no_memory)
]
&>-Fails realloc {s} {first} second (false, t) next v a h1 h2 e = elim (h1 refl) [
  | inl full ↦ inl (omega (arith, full, length-append first second))
  | inr lost ↦ inr lost
]

-- What the answer to a request for the catalogue is, by what is asked, the model, and the sink.
abbrev pub Catalogued :
    (List ℕ → ℕ → Option (List ℕ))
    → Environment
    → List ℕ
    → List ℕ
    → ByteSink
    → Served × ByteSink
    → Type 0
Catalogued realloc env method url s out =
    (¬ (AsksCatalog env method url) × (out ≡ (not_local, s)))
    ⊎ (AsksCatalog env method url
        × IsModelId env.model
        × (out.0 ≡ served 200)
        × (received out.1 ≡ received s ++ catalog_text env.model))
    ⊎ (AsksCatalog env method url
        × (out.0 ≡ failed)
        × (¬ (IsModelId env.model) ⊎ Fails realloc s (length (catalog_text env.model))))

module _ (realloc : List ℕ → ℕ → Option (List ℕ)) (keeps : KeepsBytes realloc) where
  write_some-Fails :
      (text : List ℕ) (s : ByteSink)
      → IsValid s
      → 0 < length text
      → (write_some realloc text s).0 ≡ false
      → Fails realloc s (length text)
  unfolding write_some
  write_some-Fails text s v some_there e =
      elim (write_body-Outcome realloc keeps s text 1 (length text) v (omega arith)) [
        | inl (_, w) ↦ absurd (ground (arith, w.returned, e, some_there))
        | inr (inl (full, r)) ↦ inl (omega (arith, full))
        | inr (inr (own, no_memory, r)) ↦ inr (own, s.bytes, no_memory)
      ]

  -- The three writes of the catalogue.
  abbrev catalog_writes : List ℕ → ByteSink → Bool × ByteSink
  catalog_writes model s =
      write_some realloc catalog_prefix s
      &> write_some realloc model
      &> write_some realloc catalog_tail

  catalog_writes-Appends :
      (model : List ℕ) (s : ByteSink)
      → IsValid s
      → Appends s ((catalog_prefix ++ model) ++ catalog_tail) (catalog_writes model s)
  catalog_writes-Appends model s v =
      let first = write_some realloc catalog_prefix s in
      &>-Appends (first &> write_some realloc model) (write_some realloc catalog_tail)
        (&>-Appends first (write_some realloc model)
          (write_some-Appends realloc keeps catalog_prefix s v)
          (write_some-Appends realloc keeps model))
        (write_some-Appends realloc keeps catalog_tail)

  catalog_writes-Fails :
      (model : List ℕ) (s : ByteSink)
      → IsValid s
      → 0 < length model
      → (catalog_writes model s).0 ≡ false
      → Fails realloc s (length ((catalog_prefix ++ model) ++ catalog_tail))
  catalog_writes-Fails model s v some_there =
      let first = write_some realloc catalog_prefix s in
      let before =
        &>-Appends first (write_some realloc model)
          (write_some-Appends realloc keeps catalog_prefix s v)
          (write_some-Appends realloc keeps model) in
      &>-Fails realloc catalog_tail (first &> write_some realloc model)
        (write_some realloc catalog_tail) v before
        (&>-Fails realloc model first (write_some realloc model) v
          (write_some-Appends realloc keeps catalog_prefix s v)
          (write_some-Fails catalog_prefix s v (omega arith))
          (λ t u. write_some-Fails model t u some_there))
        (λ t u. write_some-Fails catalog_tail t u (omega arith))

  -- With a `realloc` that keeps its promise and a valid sink, `serve_local_model_catalog` leaves a request
  -- to the network, and the sink as it was, exactly if it does not ask for the catalogue: if it is not a GET
  -- of a URL that ends in `/coding-agent/v1/models`, or the environment does not have "1" for the switch. A
  -- request that asks is served with status 200 and the JSON of a catalogue that has the model alone, its
  -- name quoted, or fails. It fails only if the name is empty, has over 256 characters or one that is not
  -- allowed, if the sink has no room for the catalogue, or if `realloc` gave an owned sink no memory.
  pub serve_local_model_catalog-Catalogued :
      (env : Environment) (method url : List ℕ) (s : ByteSink)
      → IsValid s
      → Catalogued realloc env method url s (serve_local_model_catalog realloc env method url s)
  unfolding serve_local_model_catalog
  serve_local_model_catalog-Catalogued env method url s v =
      elim (Bool-cases (asks_catalog env method url)) [
        | inr other ↦
            rw other (
              inl (λ asks. absurd (cc (other, AsksCatalog-asks_catalog env method url asks)), refl))
        | inl asked ↦
            let asks = asks_catalog-AsksCatalog env method url asked in
            elim (Bool-cases (is_model_id_safe env.model)) [
              | inr unsafe ↦
                  rw (asked, unsafe)
                    (inr (inr (asks, refl, inl (unsafe-IsModelId env.model unsafe))))
              | inl safe ↦
                  let id = is_model_id_safe-IsModelId env.model safe in
                  elim (Bool-cases (catalog_writes env.model s).0) [
                    | inl done ↦
                        rw (asked, safe, done)
                          (inr (
                            inl (
                              asks,
                              id,
                              refl,
                              (catalog_writes-Appends env.model s v).appended done
                                  ∙ ap (λ text. received s ++ text)
                                      (catalog_text-eq env.model safe),
                            )))
                    | inr stopped ↦
                        rw (asked, safe, stopped)
                          (inr (
                            inr (
                              asks,
                              refl,
                              inr (
                                  subst (λ (text : List ℕ). Fails realloc s (length text))
                                    (catalog_text-eq env.model safe)
                                    (catalog_writes-Fails env.model s v id.nonempty stopped)),
                            )))
                  ]
            ]
      ]
