-- ===== src/Tests/Commands.antt =====
-- Remote commands that are run, refused, timed out and truncated.
use ubuntu_daemon.Base.{
  ◌≤◌, ◌<◌, ◌≡◌, ◌↔◌, ◌⊎◌, true, false, none, [], ◌∷◌, Text, arith, take, length,
}
use ubuntu_daemon.Base.Int.{pos}
use ubuntu_daemon.Text.{lit}
use ubuntu_daemon.Protocol.{RemoteCmdPayload}
use ubuntu_daemon.Config.{RemoteCmdConfig}
use ubuntu_daemon.Runner.{Invocation, Ran, Times, truncate, invocation, execute}
use ubuntu_daemon.Runner.Laws.{Permitted, execute_runs_iff, truncate_lem}

abbrev only_ls : RemoteCmdConfig
only_ls = record {
  default_timeout_sec = pos 30;
  max_timeout_sec = pos 60;
  max_output_bytes = pos 4;
  allow_all = false;
  whitelist = lit "ls" ∷ [];
}

abbrev list_files : RemoteCmdPayload
list_files = record {
  command_id = lit "c1";
  command = lit "/bin/ls";
  args = [];
  timeout_sec = pos 90;
  work_dir = [];
  operator = [];
  reason = [];
}

abbrev times : Times
times = record { started = 1000000000; finished = 3000000000 }

abbrev printed : Ran
printed = record {
  stdout = lit "a b c";
  stderr = [];
  exit_code = pos 0;
  error = none;
  deadline = false;
}

abbrev run_it : Invocation → Ran
run_it i = printed

abbrev quote : Text → Text
quote s = s

execute_runs_iff_example :
    ((execute quote run_it times only_ls list_files).1 ≡ invocation only_ls list_files ∷ [])
      × Permitted only_ls list_files.command
    ⊎ ((execute quote run_it times only_ls list_files).1 ≡ [])
      × ¬ Permitted only_ls list_files.command
      × ((execute quote run_it times only_ls list_files).0.status ≡ lit "rejected")
      × ((execute quote run_it times only_ls list_files).0.error_code ≡ lit "COMMAND_REJECTED")
execute_runs_iff_example = execute_runs_iff quote run_it times only_ls list_files

truncate_lem_example :
    (length (truncate (lit "a b c") (pos 4)).0 ≤ 4)
    × ((truncate (lit "a b c") (pos 4)).0 ≡ take 4 (lit "a b c"))
    × (((truncate (lit "a b c") (pos 4)).1 ≡ true) ↔ (4 < length (lit "a b c")))
truncate_lem_example = truncate_lem (lit "a b c") 4 (omega arith)
