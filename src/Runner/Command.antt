-- ===== src/Runner/Command.antt =====
-- govc/govc_runner.go: `CliCommand`. A command of govc is a parameter: the flags that it registers,
-- which values they take, and what `Process` and `Run` do with the flags. `Run` writes its output
-- into a pipe that nobody reads until it is done, so it blocks for ever on what the pipe cannot hold.
pub mod Blocking
use bosh_esxi_cpi_release.Prelude.{
  ℕ, String, ◌<>◌, Bool, Option, none, some, List, [], leb, if◌then◌else◌,
}
use bosh_esxi_cpi_release.Go.World.{Error, cli, debug_log, History, Flags, Returns}
use bosh_esxi_cpi_release.Go.Monad.{looping, M, pure, panic, tell, ◌>>=◌, ◌>>◌, check}
use bosh_esxi_cpi_release.Govc.Api.{GovcRunner}
use bosh_esxi_cpi_release.Runner.FlagSet.{Flag, Setting, FlagSet, set, set_all, parse}

pub record Command : Type 0 where
  pub registered : List Flag
  pub setting : Setting
  pub process : History → FlagSet → Option Error
  -- The output that `Run` writes, and its error.
  pub run : History → FlagSet → Returns (List ℕ)

-- The flags as `Process` and `Run` see them: the two that are always set, then those of the
-- arguments, then those of the map.
unfoldable pub flags_of : Command → Flags → Option (List String) → FlagSet
flags_of c flags args =
    let fresh : FlagSet = record { formal = c.registered; args = [] } in
    let s = set c.setting "persist-session" "false" (set c.setting "json" "true" fresh) in
    let parsed : FlagSet = elim args [ none ↦ s | some l ↦ parse c.setting l s ] in
    set_all c.setting flags parsed

-- The commands that govc registers, by name.
pub record GovcRunnerImpl : Type 0 where
  pub cli_commands : String → Option Command

-- `NewGovcRunner`, with the table of `cli.Commands`.
unfoldable pub new_govc_runner : (String → Option Command) → GovcRunnerImpl
new_govc_runner commands = record { cli_commands = commands }

module _ (runner : GovcRunnerImpl) (capacity : ℕ) (size : List ℕ → ℕ)
    (copy : List ℕ → Returns String) where
  -- `readOutputFlagStdout`: `copy` stands for `io.Copy` from the pipe into the buffer, and for the
  -- buffer's text.
  unfoldable pub read_output : List ℕ → M (Returns String)
  read_output output =
      let (text, err) = copy output in check err (λ e. pure ("", some e)) (pure (text, none))

  -- `Run` and what follows it.
  unfoldable pub run_captured : Command → FlagSet → M (Returns String)
  unfolding read_output
  run_captured c s h =
      let (output, err) = c.run h s in
      if leb (size output) capacity
      then check err (λ e. pure ("", some e))
          (do
            (result, err) ← read_output output
            check err (λ e. pure ("", some e)) (pure (result, none)))
          h
      else (looping, h)

  -- The pipe is made before the command is used, and a missing command is a `nil` interface.
  unfoldable pub cli_command : String → Flags → Option (List String) → M (Returns String)
  unfolding run_captured flags_of
  cli_command command flags args = do
    tell (debug_log "govc-runner" ("command: " <> command))
    elim (runner.cli_commands command) [
      | none ↦ panic "nil pointer dereference"
      | some c ↦ do
        let s = flags_of c flags args
        tell (cli command flags args)
        λ h. check (c.process h s) (λ e. pure ("", some e)) (run_captured c s) h
    ]

  -- The runner behind its interface.
  abbrev pub govc_runner : GovcRunner
  govc_runner = record { cli_command = cli_command }
