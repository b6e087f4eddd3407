-- ===== src/Tools/Process.antt =====
-- runtime/fx_example_tools.c: `run_tests`, in the board's build. The clock, the pipe, the process and the guards
-- of runtime/fx_wamr_native.c are parameters; what is done with the process and the guards is logged. The
-- pipe's descriptors and `spawn_test`, which runs in the child, are left out.
pub mod Laws
mod Tests
use esp32_fx.Tools.Project.{ToolReply, reply}
use esp32_fx.Prelude.{
  ℕ, zero, suc, ◌+◌, ◌-◌, ℤ, pos, minus_one, minus_three, Bool, true, false, not, ◌&&◌, ◌||◌,
  Option, none, some, List, [], ◌∷◌, ◌++◌, length, blit, min, ltb, leb, ◌==◌, if◌then◌else◌, codes,
}

-- TEST_LIMIT
abbrev pub test_limit : ℕ
test_limit = 8192

-- A round of the loop over the pipe: the deadline is past, `poll` fails, there is nothing to read, `read` is
-- interrupted or would block, it fails, it finds the end, or it gives bytes.
pub data PollEvent : Type 0 where
  poll_late : PollEvent
  poll_failed : PollEvent
  poll_quiet : PollEvent
  pipe_interrupted : PollEvent
  pipe_failed : PollEvent
  pipe_closed : PollEvent
  pipe_bytes : List ℕ → PollEvent

-- `child_status`, by WIFEXITED
pub data ChildStatus : Type 0 where
  exited : ℕ → ChildStatus
  signalled : ℕ → ChildStatus

-- A round of the loop over `waitpid`.
pub data WaitEvent : Type 0 where
  child_ended : ChildStatus → WaitEvent
  wait_failed : WaitEvent
  wait_interrupted : WaitEvent
  wait_quiet : WaitEvent
  wait_late : WaitEvent

-- What is done with the guards and the child. `reap_child` is the loop of `waitpid` up to an answer other than
-- an interruption; the child is then reaped, or was no longer there to be waited for, which are the only
-- answers for a child of one's own.
pub data ProcessAction : Type 0 where
  lend_guards : ProcessAction
  spawn_child : ProcessAction
  kill_group : ProcessAction
  kill_child : ProcessAction
  reap_child : ProcessAction
  rearm_guards : ProcessAction

-- Whether the loop over the pipe failed, and the child's output. Behind the events the deadline is past.
pub collect_output : ℕ → List PollEvent → List ℕ → Bool × List ℕ
collect_output limit [] output = (true, output)
collect_output limit (poll_late ∷ events) output = (true, output)
collect_output limit (poll_failed ∷ events) output = (true, output)
collect_output limit (poll_quiet ∷ events) output = collect_output limit events output
collect_output limit (pipe_interrupted ∷ events) output = collect_output limit events output
collect_output limit (pipe_failed ∷ events) output = (true, output)
collect_output limit (pipe_closed ∷ events) output = (false, output)
collect_output limit (pipe_bytes bytes ∷ events) output =
    let later = collect_output limit events (output ++ bytes) in
    if ltb (limit - 80 - length output) (length bytes) then (true, output) else later

-- The child's status, if it is reaped in time.
pub await_child : List WaitEvent → Option ChildStatus
await_child [] = none
await_child (child_ended status ∷ events) = some status
await_child (wait_failed ∷ events) = none
await_child (wait_interrupted ∷ events) = await_child events
await_child (wait_quiet ∷ events) = await_child events
await_child (wait_late ∷ events) = none

-- The answers of one call; `printed` is the text that `snprintf` makes of an exit code.
pub record TestAnswers : Type 0 where
  pub pipes : Bool
  pub sets_cloexec : Bool
  pub lends : Bool
  pub spawns : Bool
  pub sets_nonblock : Bool
  pub output : List PollEvent
  pub waits : List WaitEvent
  pub rearms : Bool
  pub printed : ℕ → List ℕ

abbrev pub Ran : Type 0
Ran = ToolReply × List ProcessAction

-- `return -1`; the caller has set the status to 1.
test_refused : List ℕ → ToolReply
test_refused out = record { result = minus_one; status = 1; out = out }

pub exit_code : ChildStatus → ℕ
exit_code (exited code) = code
exit_code (signalled signal) = 128 + signal

test_failed : List ℕ → ℕ → ToolReply
test_failed out cap =
    reply out cap true (codes "test runner exceeded output/time limit or failed\n")

-- The last block, with what `out` holds, the child's output and its status. `snprintf` writes at most what
-- there is room for; the NUL behind it, and what it writes if it is cut, are left out.
pub report : List ℕ → ℕ → List ℕ → ℕ → List ℕ → ToolReply
report out cap output code line =
    if leb (cap - length output) (length line)
    then record { result = minus_three; status = 1; out = out }
    else record {
      result = pos (length output + length line);
      status = if code == 0 then 0 else 1;
      out = blit out (length output) line;
    }

-- The rounds of `waitpid` run only if nothing has failed.
pub wait_unless : Bool → List WaitEvent → Option ChildStatus
wait_unless true events = none
wait_unless false events = await_child events

-- From `kill` on: `failed` is set if the child was not reaped in time.
finish_tests : TestAnswers → List ℕ → ℕ → List ℕ → Option ChildStatus → Ran
finish_tests answers out cap output none = (
  test_failed out cap,
  lend_guards ∷ spawn_child ∷ kill_group ∷ kill_child ∷ reap_child ∷ rearm_guards ∷ [],
)
finish_tests answers out cap output (some status) = (
  if not answers.rearms
      then test_failed out cap
      else report out cap output (exit_code status) (answers.printed (exit_code status)),
  lend_guards ∷ spawn_child ∷ reap_child ∷ kill_group ∷ rearm_guards ∷ [],
)

-- Behind the loop over the pipe; the bytes of the output are in the buffer.
output_collected : TestAnswers → List ℕ → ℕ → Bool × List ℕ → Ran
output_collected answers out cap (failed, output) =
    finish_tests answers (blit out 0 output) cap output (wait_unless failed answers.waits)

-- With the child started.
watch_child : TestAnswers → List ℕ → ℕ → ℕ → Ran
watch_child answers out cap limit =
    output_collected answers out cap
      (if answers.sets_nonblock then collect_output limit answers.output [] else (true, []))

pub run_tests : TestAnswers → List ℕ → ℕ → Ran
run_tests answers out cap =
    let limit = min cap test_limit in
    if ltb limit 128 || not answers.pipes || not answers.sets_cloexec || not answers.lends
    then (test_refused out, [])
    else if not answers.spawns
    then (test_refused out, lend_guards ∷ rearm_guards ∷ [])
    else watch_child answers out cap limit
