-- ===== src/Runner.antt =====
-- internal/runner/remote_cmd_runner.go: `RemoteCommandRunner.Execute`. `os/exec`, the clock and
-- `strconv.Quote` are arguments.
pub mod Laws
use ubuntu_daemon.Base.{
  ℕ, zero, suc, ◌-◌, ◌/◌, ◌^◌, Bool, true, false, ◌&&◌, ◌||◌, not, Option, none, some, List, [],
  ◌∷◌, ◌++◌, Text, Result, ok, err, take, length, is_nil, ltb, leb, ◌==◌, if◌then◌else◌,
}
use ubuntu_daemon.Base.Int.{ℤ, pos, negsuc, pos_part, leb_ℤ, ltb_ℤ, eqb_ℤ, mul64}
use ubuntu_daemon.Text.{lit, contains_text}
use ubuntu_daemon.Protocol.{RemoteCmdPayload, RemoteCmdResultPayload, zero_result}
use ubuntu_daemon.Config.{RemoteCmdConfig, base, second}

-- One call of `ExecRunner.Run`, with the duration of its context in nanoseconds.
pub record Invocation : Type 0 where
  pub timeout : ℤ
  pub command : Text
  pub args : List Text
  pub work_dir : Text

-- What the call gave; `deadline` tells that its context has expired.
pub record Ran : Type 0 where
  pub stdout : Text
  pub stderr : Text
  pub exit_code : ℤ
  pub error : Option Text
  pub deadline : Bool

-- The two readings of the clock, in nanoseconds since 1970; the second is not before the first.
pub record Times : Type 0 where
  pub started : ℕ
  pub finished : ℕ

abbrev millis : ℕ → ℤ
millis ns = pos (ns / 10 ^ 6)

-- The limit is an `int`; a slice `value[:limit]` is the first `limit` bytes.
unfoldable pub truncate : Text → ℤ → Text × Bool
truncate value (pos zero) = (value, false)
truncate value (pos (suc n)) =
    if leb (length value) (suc n) then (value, false) else (take (suc n) value, true)
truncate value (negsuc n) = (value, false)

-- The seconds that a command may run.
unfoldable pub effective_timeout : RemoteCmdConfig → ℤ → ℤ
effective_timeout cfg asked =
    let t = if leb_ℤ asked (pos 0) then cfg.default_timeout_sec else asked in
    if ltb_ℤ cfg.max_timeout_sec t then cfg.max_timeout_sec else t

unfoldable pub validate : (Text → Text) → RemoteCmdConfig → Text → Result (Unit {0})
validate quote cfg command =
    if cfg.allow_all
    then ok tt
    else if is_nil cfg.whitelist
    then ok tt
    else if contains_text cfg.whitelist command || contains_text cfg.whitelist (base command)
    then ok tt
    else err (lit "command " ++ (quote command ++ lit " is not in whitelist"))

abbrev rejected : RemoteCmdPayload → Times → Text → RemoteCmdResultPayload
rejected p times reason = record zero_result {
  command_id = p.command_id;
  status = lit "rejected";
  started_at = millis times.started;
  finished_at = millis times.finished;
  duration_ms = millis (times.finished - times.started);
  message = lit "command rejected by whitelist";
  error_code = lit "COMMAND_REJECTED";
  error_message = reason;
}

-- The result's fields that are set before the outcome is looked at.
abbrev output_of : RemoteCmdConfig → RemoteCmdPayload → Times → Ran → RemoteCmdResultPayload
output_of cfg p times ran = record zero_result {
  command_id = p.command_id;
  stdout = (truncate ran.stdout cfg.max_output_bytes).0;
  stderr = (truncate ran.stderr cfg.max_output_bytes).0;
  stdout_truncated = (truncate ran.stdout cfg.max_output_bytes).1;
  stderr_truncated = (truncate ran.stderr cfg.max_output_bytes).1;
  started_at = millis times.started;
  finished_at = millis times.finished;
  duration_ms = millis (times.finished - times.started);
}

abbrev failure : RemoteCmdResultPayload → Ran → Text → RemoteCmdResultPayload
failure r ran reason = record r {
  exit_code = some ran.exit_code;
  status = lit "failed";
  message = lit "command execution failed";
  error_code = lit "INTERNAL_ERROR";
  error_message = reason;
}

unfoldable pub report : RemoteCmdConfig → RemoteCmdPayload → Times → Ran → RemoteCmdResultPayload
report cfg p times ran =
    let r = output_of cfg p times ran in
    if ran.deadline
    then (record r {
      status = lit "timeout";
      message = lit "command execution timeout";
      error_code = lit "COMMAND_TIMEOUT";
      error_message = lit "command execution exceeded timeout";
    })
    else elim ran.error [
      | some e ↦ failure r ran e
      | none ↦ if not (eqb_ℤ ran.exit_code (pos 0)) then failure r ran [] else (record r {
        exit_code = some ran.exit_code;
        status = lit "success";
        message = lit "command executed successfully";
      })
    ]

abbrev pub invocation : RemoteCmdConfig → RemoteCmdPayload → Invocation
invocation cfg p = record {
  timeout = mul64 (effective_timeout cfg p.timeout_sec) second;
  command = p.command;
  args = p.args;
  work_dir = p.work_dir;
}

-- `Execute`: the result, and the commands that were run.
unfoldable pub execute :
    (Text → Text)
    → (Invocation → Ran)
    → Times
    → RemoteCmdConfig
    → RemoteCmdPayload
    → RemoteCmdResultPayload × List Invocation
execute quote run times cfg p = elim (validate quote cfg p.command) [
  | err e ↦ (rejected p times e, [])
  | ok _ ↦ (report cfg p times (run (invocation cfg p)), invocation cfg p ∷ [])
]
