-- ===== src/Tools/Process/Laws.antt =====
-- runtime/fx_example_tools.c: what `run_tests` does with the child and the guards, and what it reports.
use esp32_fx.Tools.Project.{ToolReply}
use esp32_fx.Tools.Process.{
  test_limit, PollEvent, poll_quiet, pipe_interrupted, pipe_closed, pipe_bytes, ChildStatus,
  ProcessAction, lend_guards, spawn_child, kill_group, kill_child, reap_child, rearm_guards,
  TestAnswers, Ran, wait_unless, finish_tests, output_collected, watch_child, run_tests,
}
use esp32_fx.Prelude.{
  ℕ, ◌+◌, ◌≡◌, refl, pos, Bool, true, false, not, ◌||◌, Option, none, some, List, [], ◌∷◌, ◌++◌,
  length, take, min, ltb, ◌==◌, if◌then◌else◌, ◌>>=◌,
}

-- Whether the guards are lent, and whether a child is running.
abbrev pub Situation : Type 0
Situation = Bool × Bool

-- One action, if it is right: a child runs only while the guards are lent, is killed alone only while it
-- runs, and is reaped once; the guards come back when no child runs.
abbrev pub act : ProcessAction → Situation → Option Situation
act lend_guards (false, false) = some (true, false)
act spawn_child (true, false) = some (true, true)
act kill_group (true, running) = some (true, running)
act kill_child (true, true) = some (true, true)
act reap_child (true, true) = some (true, false)
act rearm_guards (true, false) = some (false, false)
act _ _ = none

abbrev pub act_all : List ProcessAction → Situation → Option Situation
act_all [] situation = some situation
act_all (action ∷ actions) situation = do next ← act action situation; act_all actions next

abbrev pub IsOrderly : Ran → Type 0
IsOrderly ran = act_all ran.1 (false, false) ≡ some (false, false)

if-IsOrderly : (b : Bool) (x y : Ran) → IsOrderly x → IsOrderly y → IsOrderly (if b then x else y)
if-IsOrderly true x y hx hy = hx
if-IsOrderly false x y hx hy = hy

finish_tests-IsOrderly :
    (answers : TestAnswers) (out : List ℕ) (cap : ℕ) (output : List ℕ) (status : Option ChildStatus)
    → IsOrderly (finish_tests answers out cap output status)
unfolding finish_tests
finish_tests-IsOrderly answers out cap output none = refl
finish_tests-IsOrderly answers out cap output (some status) = refl

-- Whatever happens, `run_tests` leaves no child behind and has asked for the guards that it lent back, once
-- the child was gone; nothing is started with the guards in place.
pub run_tests-IsOrderly :
    (answers : TestAnswers) (out : List ℕ) (cap : ℕ) → IsOrderly (run_tests answers out cap)
unfolding run_tests watch_child output_collected wait_unless
run_tests-IsOrderly answers out cap =
    if-IsOrderly
      (ltb (min cap test_limit) 128
        || not answers.pipes
        || not answers.sets_cloexec
        || not answers.lends)
      _ _ refl
      (if-IsOrderly (not answers.spawns) _ _ refl (finish_tests-IsOrderly answers _ cap _ _))

-- The pipe brings the child's output, up to its end, in time and without an error.
abbrev pub Gives : List PollEvent → List ℕ → Type 0
Gives (poll_quiet ∷ events) content = Gives events content
Gives (pipe_interrupted ∷ events) content = Gives events content
Gives (pipe_closed ∷ events) content = content ≡ []
Gives (pipe_bytes bytes ∷ events) content =
    (rest : List ℕ) × (content ≡ bytes ++ rest) × Gives events rest
Gives _ content = ⊥

-- Every call of the system succeeds.
abbrev pub IsServed : TestAnswers → Type 0
IsServed answers =
    (answers.pipes ≡ true)
    × (answers.sets_cloexec ≡ true)
    × (answers.lends ≡ true)
    × (answers.spawns ≡ true)
    × (answers.sets_nonblock ≡ true)
    × (answers.rearms ≡ true)

-- The reply to a test that ended: its output, and behind it the line with its exit code.
abbrev pub Reports : List ℕ → List ℕ → ℕ → ToolReply → Type 0
Reports content line code r =
    (r.result ≡ pos (length content + length line))
    × (r.status ≡ (if code == 0 then 0 else 1))
    × (take (length content + length line) r.out ≡ content ++ line)
