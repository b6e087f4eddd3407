-- ===== src/Tools/Process/Tests.antt =====
-- Runs of the tests at concrete inputs.
use esp32_fx.Tools.Process.{
  poll_quiet, pipe_bytes, pipe_closed, exited, child_ended, wait_quiet, lend_guards, spawn_child,
  kill_group, kill_child, reap_child, rearm_guards, TestAnswers, collect_output, await_child,
  wait_unless, finish_tests, output_collected, watch_child, run_tests,
}
use esp32_fx.Prelude.{ℕ, ◌≡◌, refl, true, List, [], ◌∷◌, ◌==◌, if◌then◌else◌, replicate, codes}

abbrev buffer : List ℕ
buffer = replicate 200 0

abbrev printed_code : ℕ → List ℕ
printed_code code = if code == 0 then codes "exit_code=0\n" else codes "exit_code=1\n"

abbrev passing : TestAnswers
passing = record {
  pipes = true;
  sets_cloexec = true;
  lends = true;
  spawns = true;
  sets_nonblock = true;
  output = pipe_bytes (codes "ok ") ∷ poll_quiet ∷ pipe_bytes (codes "1\n") ∷ pipe_closed ∷ [];
  waits = wait_quiet ∷ child_ended (exited 0) ∷ [];
  rearms = true;
  printed = printed_code;
}

-- A child that closes its output and goes on is killed at the deadline.
run_tests_late :
    (run_tests (record passing { waits = wait_quiet ∷ [] }) buffer 200).1
    ≡ lend_guards ∷ spawn_child ∷ kill_group ∷ kill_child ∷ reap_child ∷ rearm_guards ∷ []
unfolding run_tests watch_child output_collected collect_output wait_unless await_child finish_tests
run_tests_late = refl
