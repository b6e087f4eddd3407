-- ===== src/Tools/Project.antt =====
-- runtime/fx_example_tools.c: `reply`, `checked_file`, and the parts of `fx_example_tool_call` that read a
-- file of the project and that replace battery.sh. The answers of the kernel are parameters; the
-- descriptors are left out.
pub mod Laws
mod Tests
use esp32_fx.Files.{ReadEvent, interrupted, read_failed, chunk_ready}
use esp32_fx.Tools.{file_limit}
use esp32_fx.Prelude.{
  ℕ, zero, suc, ◌+◌, ◌-◌, ℤ, pos, minus_three, Bool, true, false, not, ◌&&◌, ◌||◌, Option, none,
  some, List, [], ◌∷◌, ◌++◌, length, take, drop, blit, min, ltb, ◌==◌, if◌then◌else◌, codes,
}

-- The result of a call, `*status`, and the buffer `out`.
pub record ToolReply : Type 0 where
  pub result : ℤ
  pub status : ℕ
  pub out : List ℕ

pub reply : List ℕ → ℕ → Bool → List ℕ → ToolReply
reply out cap failed text =
    let status = if failed then 1 else 0 in
    if ltb cap (length text)
    then record { result = minus_three; status = status; out = out }
    else record { result = pos (length text); status = status; out = blit out 0 text }

-- What `fstat` finds.
pub record FileStat : Type 0 where
  pub is_regular : Bool
  pub st_nlink : ℕ
  pub st_size : ℕ

-- Of a file that opens without a link being followed and whose `fstat` succeeds. The size is no negative
-- number.
pub checked_file : Option FileStat → Bool
checked_file none = false
checked_file (some st) =
    not (not st.is_regular || not (st.st_nlink == 1) || ltb file_limit st.st_size)

-- How the loop over `read` ends, with the buffer: the file's end after `used` bytes, the result -3, or a
-- call that fails.
pub data ReadEnd : Type 0 where
  file_read : ℕ → List ℕ → ReadEnd
  file_long : List ℕ → ReadEnd
  file_broken : List ℕ → ReadEnd

-- The loop; behind the events every call gives the end of the file. Bytes for which the buffer has no room
-- are there for the read of one byte more.
pub read_rest : ℕ → List ReadEvent → ℕ → List ℕ → ReadEnd
read_rest bound [] used out = file_read used out
read_rest bound (interrupted ∷ events) used out = read_rest bound events used out
read_rest bound (read_failed ∷ events) used out =
    if used == bound then file_long out else file_broken out
read_rest bound (chunk_ready bytes ∷ events) used out =
    let later = read_rest bound events (used + length bytes) (blit out used bytes) in
    if length bytes == 0
    then file_read used out
    else if ltb (bound - used) (length bytes)
    then file_long (blit out used (take (bound - used) bytes))
    else later

-- `failed` is the reply that was made first; its text is in the buffer.
pub read_reply : ToolReply → ReadEnd → ToolReply
read_reply failed (file_read used out) = record { result = pos used; status = 0; out = out }
read_reply failed (file_long out) = record { result = minus_three; status = 1; out = out }
read_reply failed (file_broken out) = record failed { out = out }

pub denied_reply : List ℕ → ℕ → ToolReply
denied_reply out cap = reply out cap true (codes "file denied or unavailable\n")

-- Behind the opening of the file.
pub read_project_file : List ℕ → ℕ → List ReadEvent → ToolReply
read_project_file out cap events =
    let failed = denied_reply out cap in
    read_reply failed (read_rest (min cap file_limit) events 0 failed.out)

-- What a call of `write` answers, at most all that is left; behind the events it writes everything.
pub data WriteEvent : Type 0 where
  write_interrupted : WriteEvent
  write_failed : WriteEvent
  wrote : ℕ → WriteEvent

-- Whether the loop wrote everything, and what is in the file.
pub write_rest : List WriteEvent → List ℕ → Bool × List ℕ
write_rest events [] = (true, [])
write_rest [] (byte ∷ text) = (true, byte ∷ text)
write_rest (write_interrupted ∷ events) (byte ∷ text) = write_rest events (byte ∷ text)
write_rest (write_failed ∷ events) (byte ∷ text) = (false, [])
write_rest (wrote zero ∷ events) (byte ∷ text) = (false, [])
write_rest (wrote (suc count) ∷ events) (byte ∷ text) =
    let (ok, rest) = write_rest events (drop count text) in (ok, byte ∷ take count text ++ rest)

-- The files of the project that a call may change: battery.sh, and the temporary one, if it is there.
pub record Project : Type 0 where
  pub battery : List ℕ
  pub temporary : Option (List ℕ)

pub record WriteAnswers : Type 0 where
  pub creates : Bool
  pub writes : List WriteEvent
  pub chmods : Bool
  pub syncs : Bool
  pub closes : Bool
  pub renames : Bool
  pub unlinks : Bool

-- Behind the loop: `failed`, and what was written.
pub replaced : WriteAnswers → List ℕ → ℕ → Project → Bool × List ℕ → ToolReply × Project
replaced answers out cap project (ok, text) =
    if not ok
      || (not answers.chmods || not answers.syncs)
      || not answers.closes
      || not answers.renames
    then (
      denied_reply out cap,
      record project { temporary = if answers.unlinks then none else some text },
    )
    else (
      reply (denied_reply out cap).out cap false (codes "wrote battery.sh\n"),
      record { battery = text; temporary = none },
    )

-- By whether the temporary file is there: `O_EXCL` then makes `openat` fail.
replace_unless :
    WriteAnswers → List ℕ → ℕ → List ℕ → Project → Option (List ℕ) → ToolReply × Project
replace_unless answers out cap content project (some text) = (denied_reply out cap, project)
replace_unless answers out cap content project none =
    if answers.creates
    then replaced answers out cap project (write_rest answers.writes content)
    else (denied_reply out cap, project)

pub replace_project_file : WriteAnswers → List ℕ → ℕ → List ℕ → Project → ToolReply × Project
replace_project_file answers out cap content project =
    replace_unless answers out cap content project project.temporary
