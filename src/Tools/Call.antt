-- ===== src/Tools/Call.antt =====
-- runtime/fx_example_tools.c: `fx_example_tool_call`, which joins the decision on a call to what it does. The
-- answers of the system are parameters; the descriptors and the messages are left out.
pub mod Confined
mod Tests
use esp32_fx.Files.{ReadEvent}
use esp32_fx.Tools.{
  Decision, invalid_call, denied, reads_file, writes_battery, runs_tests, tool_decision,
}
use esp32_fx.Tools.Project.{
  ToolReply, reply, denied_reply, FileStat, checked_file, read_project_file, Project, WriteAnswers,
  replace_project_file,
}
use esp32_fx.Tools.Process.{ProcessAction, TestAnswers, Ran, run_tests}
use esp32_fx.Prelude.{
  ℕ, ℤ, minus_one, Bool, true, false, not, ◌&&◌, ◌||◌, Option, none, some, List, [], ◌∷◌, ◌==◌,
  if◌then◌else◌, codes,
}

pub record CallAnswers : Type 0 where
  pub jail : Option (List ℕ)
  pub callocs : Bool
  pub opens_jail : Bool
  pub opens_project : Bool
  pub file_stat : List ℕ → Option FileStat
  pub file_reads : List ℕ → List ReadEvent
  pub writing : WriteAnswers
  pub testing : TestAnswers

-- What a call leaves: the reply, the project, and what was done with processes.
abbrev pub Called : Type 0
Called = ToolReply × Project × List ProcessAction

-- `openat` of the directories and the check of the file.
pub opens_file : CallAnswers → List ℕ → Bool
opens_file answers path =
    answers.opens_jail && answers.opens_project && checked_file (answers.file_stat path)

pub with_reply : Project → ToolReply → Called
with_reply project r = (r, project, [])

pub with_project : ToolReply × Project → Called
with_project (r, project) = (r, project, [])

pub with_tests : Project → Ran → Called
with_tests project (r, actions) = (r, project, actions)

-- By the decision. A file is opened only behind the test of its path.
pub carry_out : CallAnswers → List ℕ → ℕ → Project → Decision → Called
carry_out answers out cap project invalid_call =
    with_reply project (reply out cap true (codes "invalid tool or arguments\n"))
carry_out answers out cap project denied = with_reply project (denied_reply out cap)
carry_out answers out cap project (reads_file path) =
    if opens_file answers path
    then with_reply project (read_project_file out cap (answers.file_reads path))
    else with_reply project (denied_reply out cap)
carry_out answers out cap project (writes_battery content) =
    if opens_file answers (codes "battery.sh")
    then with_project (replace_project_file answers.writing out cap content project)
    else with_reply project (denied_reply out cap)
carry_out answers out cap project runs_tests =
    with_tests project (run_tests answers.testing out cap)

-- Behind the test of FX_EXAMPLE_JAIL.
pub enabled_call : CallAnswers → List ℕ → ℕ → Project → Decision → Called
enabled_call answers out cap project decision =
    if not answers.callocs
    then with_reply project (record { result = minus_one; status = 1; out = out })
    else carry_out answers out cap project decision

pub is_enabled : Option (List ℕ) → Bool
is_enabled (some (byte ∷ jail)) = byte == b'/'
is_enabled _ = false

pub fx_example_tool_call : CallAnswers → List ℕ → List ℕ → List ℕ → ℕ → Project → Called
fx_example_tool_call answers name arguments out cap project =
    if not (is_enabled answers.jail)
    then with_reply project (reply out cap true (codes "example tools disabled\n"))
    else enabled_call answers out cap project (tool_decision name arguments)
