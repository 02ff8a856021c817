-- ===== src/Runner/Laws.antt =====
-- What a remote command may do: who is refused, how long it may run, how much it may answer.
use ubuntu_daemon.Base.{
  ℕ, zero, suc, ◌≤◌, ◌<◌, ◌≡◌, ◌↔◌, ◌⊎◌, true, false, none, [], ◌∷◌, arith, Text, take, length,
  length-take, take_all,
}
use ubuntu_daemon.Base.Int.{ℤ, pos, ◌≤ℤ◌}
use ubuntu_daemon.Text.{lit, contains_text}
use ubuntu_daemon.Protocol.{RemoteCmdPayload}
use ubuntu_daemon.Config.{RemoteCmdConfig, base}
use ubuntu_daemon.Config.Laws.Normal.{RemoteIsBounded}
use ubuntu_daemon.Runner.{
  Invocation, Ran, Times, truncate, effective_timeout, validate, report, invocation, execute,
}

abbrev pub Permitted : RemoteCmdConfig → Text → Type 0
Permitted cfg command =
    (cfg.allow_all ≡ true)
    ⊎ ((cfg.whitelist ≡ [])
        ⊎ ((contains_text cfg.whitelist command ≡ true)
            ⊎ (contains_text cfg.whitelist (base command) ≡ true)))

-- A command is run exactly if everything is allowed, the whitelist is empty, or the whitelist has
-- the command or the last element of its path. It is run once then, with its own arguments; a
-- command that is not run is reported as rejected with the code COMMAND_REJECTED.
pub execute_runs_iff :
    (quote : Text → Text) (run : Invocation → Ran) (times : Times) (cfg : RemoteCmdConfig)
    (p : RemoteCmdPayload)
    → ((execute quote run times cfg p).1 ≡ invocation cfg p ∷ []) × Permitted cfg p.command
      ⊎ ((execute quote run times cfg p).1 ≡ [])
        × ¬ Permitted cfg p.command
        × ((execute quote run times cfg p).0.status ≡ lit "rejected")
        × ((execute quote run times cfg p).0.error_code ≡ lit "COMMAND_REJECTED")
unfolding execute validate
execute_runs_iff quote run times cfg p = ground arith

-- With the bounds that `normalize` sets, the time limit lies between one second and the configured
-- maximum, whatever was asked for; a request within these limits is granted as it is.
pub effective_timeout_bounds :
    (cfg : RemoteCmdConfig) (asked : ℤ)
    → RemoteIsBounded cfg
    → (pos 1 ≤ℤ effective_timeout cfg asked)
      × (effective_timeout cfg asked ≤ℤ cfg.max_timeout_sec)
      × (pos 1 ≤ℤ asked → asked ≤ℤ cfg.max_timeout_sec → effective_timeout cfg asked ≡ asked)
unfolding effective_timeout
effective_timeout_bounds cfg asked h = ground arith

-- With a limit above 0: the answer's bytes are the first bytes of the output, at most as many as
-- the limit, all of them unless the flag is set, and the flag is set exactly if there were more.
pub truncate_lem :
    (value : Text) (limit : ℕ)
    → 0 < limit
    → (length (truncate value (pos limit)).0 ≤ limit)
      × ((truncate value (pos limit)).0 ≡ take limit value)
      × (((truncate value (pos limit)).1 ≡ true) ↔ (limit < length value))
unfolding truncate
truncate_lem value zero h = absurd (omega arith)
truncate_lem value (suc n) h = ground (arith, take_all (suc n) value, length-take (suc n) value)

-- How an outcome is reported, on every branch: an expired deadline first, then an error or an exit
-- code other than 0, and success only with none of these. Only a time-out has no exit code.
pub report_status :
    (cfg : RemoteCmdConfig) (p : RemoteCmdPayload) (times : Times) (ran : Ran)
    → (((report cfg p times ran).status ≡ lit "timeout") ↔ (ran.deadline ≡ true))
      × (((report cfg p times ran).status ≡ lit "success")
          ↔ ((ran.deadline ≡ false) × (ran.error ≡ none) × (ran.exit_code ≡ pos 0)))
      × (((report cfg p times ran).exit_code ≡ none) ↔ (ran.deadline ≡ true))
      × (((report cfg p times ran).error_code ≡ [])
          ↔ ((report cfg p times ran).status ≡ lit "success"))
unfolding report lit
report_status cfg p times ran = ground arith
