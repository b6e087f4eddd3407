-- ===== src/Eink/Json/Writing.antt =====
-- The text that `write_json_string` leaves in its stream.
use esp32_fx.Eink.Json.RoundTrip.{escaped_text, quoted}
use esp32_fx.Eink.Json.{hex_digit, escaped, write_escaped, write_json_string}
use esp32_fx.Prelude.{
  ℕ, ◌≤◌, ◌≡◌, sym, ◌∙◌, Option, some, List, [], ◌∷◌, ◌++◌, append_assoc, append-nil, All,
  All-append, arith, bind-eq-some,
}

-- What the program relies on in stdio: a write that succeeds adds its bytes to the stream.
abbrev pub Appends : {File : Type 0} → (List ℕ → File → Option File) → (File → List ℕ) → Type 0
Appends {File} put contents =
    (text : List ℕ) (f g : File) → put text f ≡ some g → contents g ≡ contents f ++ text

module _ {File : Type 0} (put : List ℕ → File → Option File) (contents : File → List ℕ)
    (appends : Appends put contents) where
  write_escaped_lem :
      (text : List ℕ) (f g : File)
      → write_escaped put text f ≡ some g
      → contents g ≡ contents f ++ escaped_text text
  unfolding write_escaped
  write_escaped_lem [] f g e = rw append-nil (sym (cc (e)))
  write_escaped_lem (byte ∷ text) f g e =
      let (f', first, later) = bind-eq-some (put (escaped byte) f) _ e in
      write_escaped_lem text f' g later
      ∙ rw (appends (escaped byte) f f' first)
          (append_assoc (contents f) (escaped byte) (escaped_text text))

  -- On a stream where a write that succeeds adds its bytes, a call of `write_json_string` that
  -- succeeds has added exactly the quoted text.
  pub write_json_string_lem :
      (text : List ℕ) (f g : File)
      → write_json_string put text f ≡ some g
      → contents g ≡ contents f ++ quoted text
  unfolding write_json_string
  write_json_string_lem text f g e =
      let (opened, e1, r1) = bind-eq-some (put (b'"' ∷ []) f) _ e in
      let (written, e2, e3) = bind-eq-some (write_escaped put text opened) _ r1 in
      rw (appends (b'"' ∷ []) written g e3, write_escaped_lem text opened written e2)
        (rw (appends (b'"' ∷ []) f opened e1) (simp append_assoc))

escaped-All_printable : (byte : ℕ) → All (λ b. 0x20 ≤ b) (escaped byte)
unfolding escaped hex_digit
escaped-All_printable byte = ground arith

escaped_text-All_printable : (text : List ℕ) → All (λ b. 0x20 ≤ b) (escaped_text text)
escaped_text-All_printable [] = tt
escaped_text-All_printable (byte ∷ text) =
    All-append (λ b. 0x20 ≤ b) (escaped byte) (escaped_text text) (escaped-All_printable byte)
      (escaped_text-All_printable text)

-- The quoted text is one line: it holds no control character, so a newline in a prompt cannot end
-- the message that carries it.
pub quoted-All_printable : (text : List ℕ) → All (λ byte. 0x20 ≤ byte) (quoted text)
quoted-All_printable text = (
  omega arith,
  All-append (λ b. 0x20 ≤ b) (escaped_text text) (b'"' ∷ []) (escaped_text-All_printable text)
      (omega arith),
)
