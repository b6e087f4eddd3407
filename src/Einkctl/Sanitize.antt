-- ===== src/Einkctl/Sanitize.antt =====
-- runtime/einkctl.c: `sanitize_text`, which makes printable text of the bytes it is given.
pub mod Laws
pub mod Clean
mod Tests
use esp32_fx.Prelude.{
  ℕ, zero, suc, ◌+◌, ◌-◌, ◌/◌, ◌%◌, Bool, true, false, not, ◌&&◌, ◌||◌, List, [], ◌∷◌, ◌++◌, length,
  drop, replicate, ltb, leb, ◌==◌, if◌then◌else◌,
}

-- The enumeration `escape`.
pub data Escape : Type 0 where
  escape_none : Escape
  escape_start : Escape
  escape_csi : Escape
  escape_osc : Escape

-- `(byte & 0xc0U) == 0x80U` of a byte
abbrev pub is_utf8_continuation : ℕ → Bool
is_utf8_continuation byte = leb 0x80 byte && ltb byte 0xc0

-- `source < input_length && input[source] == wanted`
pub next_is : ℕ → List ℕ → Bool
next_is wanted [] = false
next_is wanted (byte ∷ rest) = byte == wanted

pub skip_continuations : List ℕ → List ℕ
skip_continuations [] = []
skip_continuations (byte ∷ rest) =
    let later = skip_continuations rest in if is_utf8_continuation byte then later else byte ∷ rest

-- What one round of the loop leaves: the state, the input from `source` on, and the bytes added.
pub record Round : Type 0 where
  pub escape : Escape
  pub rest : List ℕ
  pub added : List ℕ

-- A byte outside escape sequences, behind `destination` bytes of output.
pub plain_byte : ℕ → List ℕ → ℕ → Round
plain_byte byte rest destination =
    if byte == 0x1b
    then record { escape = escape_start; rest = rest; added = [] }
    else if byte == b'\r'
    then record {
      escape = escape_none;
      rest = rest;
      added = if next_is b'\n' rest then [] else b'\n' ∷ [];
    }
    else if byte == b'\t'
    then record { escape = escape_none; rest = rest; added = replicate (4 - destination % 4) b' ' }
    else if byte == b'\n' || (leb 0x20 byte && leb byte 0x7e)
    then record { escape = escape_none; rest = rest; added = byte ∷ [] }
    else if leb 0x80 byte
    then record { escape = escape_none; rest = skip_continuations rest; added = b'?' ∷ [] }
    else record { escape = escape_none; rest = rest; added = [] }

pub sanitize_byte : Escape → ℕ → List ℕ → ℕ → Round
sanitize_byte escape_start byte rest destination = record {
  escape = if byte == b'[' then escape_csi else if byte == b']' then escape_osc else escape_none;
  rest = rest;
  added = [];
}
sanitize_byte escape_csi byte rest destination = record {
  escape = if leb 0x40 byte && leb byte 0x7e then escape_none else escape_csi;
  rest = rest;
  added = [];
}
sanitize_byte escape_osc byte rest destination =
    if byte == 7
    then record { escape = escape_none; rest = rest; added = [] }
    else if byte == 0x1b && next_is b'\\' rest
    then record { escape = escape_none; rest = drop 1 rest; added = [] }
    else record { escape = escape_osc; rest = rest; added = [] }
sanitize_byte escape_none byte rest destination = plain_byte byte rest destination

-- The loop, at most `fuel` rounds: the bytes added behind the first `destination`.
pub sanitize_rest : ℕ → Escape → List ℕ → ℕ → List ℕ
sanitize_rest zero escape input destination = []
sanitize_rest (suc fuel) escape [] destination = []
sanitize_rest (suc fuel) escape (byte ∷ rest) destination =
    let round = sanitize_byte escape byte rest destination in
    round.added ++ sanitize_rest fuel round.escape round.rest (destination + length round.added)

-- Every round takes a byte at least.
pub sanitize_text : List ℕ → List ℕ
sanitize_text input = sanitize_rest (length input) escape_none input 0
