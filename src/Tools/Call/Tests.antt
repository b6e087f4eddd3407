-- ===== src/Tools/Call/Tests.antt =====
-- Calls of the example tools at concrete inputs.
use esp32_fx.Tools.Project.{Project}
use esp32_fx.Tools.Call.{CallAnswers, fx_example_tool_call}
use esp32_fx.Tools.Call.Confined.{IsConfined, fx_example_tool_call-IsConfined}
use esp32_fx.Prelude.{true, false, none, some, [], replicate, codes}

abbrev answers : CallAnswers
answers = record {
  jail = some (codes "/srv/jail");
  callocs = true;
  opens_jail = true;
  opens_project = true;
  file_stat = λ path. some (record { is_regular = true; st_nlink = 1; st_size = 4 });
  file_reads = λ path. [];
  writing = record {
    creates = true;
    writes = [];
    chmods = true;
    syncs = true;
    closes = true;
    renames = true;
    unlinks = true;
  };
  testing = record {
    pipes = false;
    sets_cloexec = false;
    lends = false;
    spawns = false;
    sets_nonblock = false;
    output = [];
    waits = [];
    rearms = false;
    printed = λ code. [];
  };
}

abbrev project : Project
project = record { battery = codes "old\n"; temporary = none }

fx_example_tool_call-IsConfined_example : IsConfined project (
    fx_example_tool_call answers
      (codes "replace_battery")
      (codes "{\"path\":\"battery.sh\",\"content\":\"echo 42\\n\"}")
      (replicate 64 0)
      64
      project)
fx_example_tool_call-IsConfined_example =
    fx_example_tool_call-IsConfined answers (codes "replace_battery")
      (codes "{\"path\":\"battery.sh\",\"content\":\"echo 42\\n\"}") (replicate 64 0) 64 project
