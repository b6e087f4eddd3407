-- ===== src/Prelude/CStrings.antt =====
-- C strings as lists of bytes, and what libc's functions on them compute.
use Prim.Native.Char.{code}
use Prim.Native.String.{String}
use Prim.Native.Nat.{ℕ, zero, suc, ◌≤◌, ◌<◌}
use mathlib.Core.Path.{◌≡◌, refl}
use mathlib.Core.Logic.{◌≢◌}
use mathlib.Core.Bool.{Bool, true, false, ◌&&◌}
use mathlib.Core.List.{List, [], ◌∷◌, ◌++◌}
use native.Mathlib.Omega.{arith}
use esp32_fx.Prelude.Lists.{All, length, get_or, take, drop}
use esp32_fx.Prelude.Tests.{◌==◌, if◌then◌else◌}

-- The C string that starts with the given bytes: those before the first NUL.
unfoldable pub c_string : List ℕ → List ℕ
c_string [] = []
c_string (byte ∷ text) = let rest = c_string text in if byte == 0 then [] else byte ∷ rest

-- `strcmp(a, b) == 0`
unfoldable pub same_text : List ℕ → List ℕ → Bool
same_text [] [] = true
same_text [] (b ∷ ys) = false
same_text (a ∷ xs) [] = false
same_text (a ∷ xs) (b ∷ ys) = a == b && same_text xs ys

-- `strchr(text, wanted) != NULL`, of a character that is not NUL
unfoldable pub has_char : ℕ → List ℕ → Bool
has_char wanted [] = false
has_char wanted (byte ∷ text) =
    let rest = has_char wanted text in if byte == wanted then true else rest

-- `strncmp(text, prefix, strlen(prefix)) == 0`
unfoldable pub starts_with : List ℕ → List ℕ → Bool
starts_with [] text = true
starts_with (p ∷ prefix) [] = false
starts_with (p ∷ prefix) (byte ∷ text) =
    let rest = starts_with prefix text in if p == byte then rest else false

pub c_string_whole : (text : List ℕ) → All (λ byte. byte ≢ 0) text → c_string text ≡ text
unfolding c_string
c_string_whole [] h = refl
c_string_whole (byte ∷ text) h = ground (arith, h.0, c_string_whole text h.1)

pub same_text_refl : (text : List ℕ) → same_text text text ≡ true
unfolding same_text
same_text_refl [] = refl
same_text_refl (byte ∷ text) = ground (arith, same_text_refl text)

pub same_text_eq : (xs ys : List ℕ) → same_text xs ys ≡ true → xs ≡ ys
unfolding same_text
same_text_eq [] [] e = refl
same_text_eq [] (y ∷ ys) e = absurd (cc)
same_text_eq (x ∷ xs) [] e = absurd (cc)
same_text_eq (x ∷ xs) (y ∷ ys) e = ground (arith, same_text_eq xs ys)

pub c_string_no_nul : (text : List ℕ) → All (λ byte. byte ≢ 0) (c_string text)
unfolding c_string
c_string_no_nul [] = tt
c_string_no_nul (byte ∷ text) = ground (arith, c_string_no_nul text)

-- The bytes of an ASCII text.
abbrev pub codes : String → List ℕ
codes String.[] = []
codes (String.◌∷◌ c s) = code c ∷ codes s

pub starts_with-append :
    (prefix text : List ℕ)
    → starts_with prefix text ≡ true
    → text ≡ prefix ++ drop (length prefix) text
unfolding starts_with
starts_with-append [] text e = refl
starts_with-append (p ∷ prefix) [] e = absurd (cc)
starts_with-append (p ∷ prefix) (byte ∷ text) e = ground (arith, starts_with-append prefix text)

pub starts_with-take :
    (prefix text : List ℕ) (n : ℕ)
    → length prefix ≤ n
    → starts_with prefix (take n text) ≡ starts_with prefix text
unfolding starts_with
starts_with-take [] text n h = refl
starts_with-take (p ∷ prefix) text zero h = absurd (omega arith)
starts_with-take (p ∷ prefix) [] (suc n) h = refl
starts_with-take (p ∷ prefix) (byte ∷ text) (suc n) h =
    ground (arith, starts_with-take prefix text n (omega arith))

pub starts_with-++ :
    (prefix text more : List ℕ)
    → starts_with prefix text ≡ true
    → starts_with prefix (text ++ more) ≡ true
unfolding starts_with
starts_with-++ [] text more e = refl
starts_with-++ (p ∷ prefix) [] more e = absurd (cc)
starts_with-++ (p ∷ prefix) (byte ∷ text) more e =
    ground (arith, e, starts_with-++ prefix text more)

-- The last character of a prefix that the text starts with.
pub starts_with-get :
    (prefix text : List ℕ) (k : ℕ)
    → starts_with prefix text ≡ true
    → k < length prefix
    → (get_or text k 0 ≡ get_or prefix k 0) × (k < length text)
unfolding starts_with
starts_with-get [] text k e h = absurd (omega arith)
starts_with-get (p ∷ prefix) [] k e h = absurd (cc)
starts_with-get (p ∷ prefix) (byte ∷ text) zero e h = ground arith
starts_with-get (p ∷ prefix) (byte ∷ text) (suc k) e h =
    ground (arith, starts_with-get prefix text k)
