-- ===== src/Tools/Call/Confined.antt =====
-- runtime/fx_example_tools.c: what a call of the guest can do at most.
use esp32_fx.Tools.{
  Decision, invalid_call, denied, reads_file, writes_battery, runs_tests, tool_decision, file_limit,
}
use esp32_fx.Tools.Safe.{IsText, Allowed, tool_decision-Allowed}
use esp32_fx.Tools.Project.{ToolReply, Project}
use esp32_fx.Tools.Project.Laws.{IsAtomic, replace_project_file-IsAtomic}
use esp32_fx.Tools.Process.{Ran}
use esp32_fx.Tools.Process.Laws.{IsOrderly, run_tests-IsOrderly}
use esp32_fx.Tools.Call.{
  CallAnswers, Called, opens_file, with_reply, with_project, with_tests, carry_out, enabled_call,
  is_enabled, fx_example_tool_call,
}
use esp32_fx.Prelude.{
  ℕ, ◌≤◌, ◌<◌, ◌≡◌, ◌⊎◌, refl, subst, sym, inl, inr, Bool, true, false, not, List, length, All,
  if◌then◌else◌, codes,
}

-- A content that battery.sh may get.
abbrev pub IsAcceptable : List ℕ → Type 0
IsAcceptable content = (0 < length content) × (length content ≤ file_limit) × All IsText content

-- At most battery.sh is changed, to an acceptable content that is reported as written, and what was started
-- is over.
abbrev pub IsConfined : Project → Called → Type 0
IsConfined before (r, after, actions) =
    ((after.battery ≡ before.battery) ⊎ (IsAcceptable after.battery × (r.status ≡ 0)))
    × IsOrderly (r, actions)

if-IsConfined :
    (before : Project) (b : Bool) (x y : Called)
    → IsConfined before x
    → IsConfined before y
    → IsConfined before (if b then x else y)
if-IsConfined before true x y hx hy = hx
if-IsConfined before false x y hx hy = hy

with_reply-IsConfined :
    (project : Project) (r : ToolReply) → IsConfined project (with_reply project r)
unfolding with_reply
with_reply-IsConfined project r = (inl refl, refl)

with_tests-IsConfined :
    (project : Project) (ran : Ran) → IsOrderly ran → IsConfined project (with_tests project ran)
unfolding with_tests
with_tests-IsConfined project (r, actions) orderly = (inl refl, orderly)

with_project-IsConfined :
    (unlinks : Bool) (content : List ℕ) (before : Project) (replaced : ToolReply × Project)
    → IsAcceptable content
    → IsAtomic unlinks content before replaced
    → IsConfined before (with_project replaced)
unfolding with_project
with_project-IsConfined unlinks content before (r, after) good (inl (status, whole, gone)) =
    (inr (subst IsAcceptable (sym whole) good, status), refl)
with_project-IsConfined unlinks content before (r, after) good (inr (status, same, cleaned)) =
    (inl same, refl)

carry_out-IsConfined :
    (answers : CallAnswers) (out : List ℕ) (cap : ℕ) (project : Project) (decision : Decision)
    → Allowed decision
    → IsConfined project (carry_out answers out cap project decision)
unfolding carry_out
carry_out-IsConfined answers out cap project invalid_call allowed = with_reply-IsConfined project _
carry_out-IsConfined answers out cap project denied allowed = with_reply-IsConfined project _
carry_out-IsConfined answers out cap project (reads_file path) allowed =
    if-IsConfined project (opens_file answers path) _ _ (with_reply-IsConfined project _)
      (with_reply-IsConfined project _)
carry_out-IsConfined answers out cap project (writes_battery content) allowed =
    if-IsConfined project (opens_file answers (codes "battery.sh")) _ _
      (with_project-IsConfined answers.writing.unlinks content project _ allowed
        (replace_project_file-IsAtomic answers.writing out cap content project))
      (with_reply-IsConfined project _)
carry_out-IsConfined answers out cap project runs_tests allowed =
    with_tests-IsConfined project _ (run_tests-IsOrderly answers.testing out cap)

-- Whatever the guest asks for and the system answers, a call leaves battery.sh as it was, or replaces it by a
-- content of 1 to 4,096 bytes of tabs, line breaks and printable ASCII and reports success; and it leaves
-- no child running and has asked for the guards that it lent back.
pub fx_example_tool_call-IsConfined :
    (answers : CallAnswers) (name arguments out : List ℕ) (cap : ℕ) (project : Project)
    → IsConfined project (fx_example_tool_call answers name arguments out cap project)
unfolding fx_example_tool_call enabled_call
fx_example_tool_call-IsConfined answers name arguments out cap project =
    if-IsConfined project (not (is_enabled answers.jail)) _ _ (with_reply-IsConfined project _) (
      if-IsConfined project (not answers.callocs) _ _ (with_reply-IsConfined project _) (
        carry_out-IsConfined answers out cap project (tool_decision name arguments)
          (tool_decision-Allowed name arguments)))
