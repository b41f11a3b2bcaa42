-- ===== src/Runner/Command/Blocking.antt =====
-- govc/govc_runner.go: when `CliCommand` returns a command's output.
use bosh_esxi_cpi_release.Prelude.{
  ℕ, ◌≤◌, String, ◌<>◌, Option, none, some, List, ◌∷◌, ◌≡◌, refl, arith,
}
use bosh_esxi_cpi_release.Go.World.{Error, cli, debug_log, History, Flags, Returns}
use bosh_esxi_cpi_release.Go.Monad.{returned}
use bosh_esxi_cpi_release.Runner.Command.{
  GovcRunnerImpl, read_output, Command, flags_of, run_captured, cli_command,
}

module _ (runner : GovcRunnerImpl) (capacity : ℕ) (size : List ℕ → ℕ)
    (copy : List ℕ → Returns String) (command : String) (flags : Flags)
    (args : Option (List String)) (h : History) where
  -- The events when the command is processed and run.
  abbrev pub called : History
  called = cli command flags args ∷ debug_log "govc-runner" ("command: " <> command) ∷ h

  -- What a call that returned a text has done.
  pub record Ran (t : String) (h' : History) : Type 0 where
    pub used : Command
    pub output : List ℕ
    pub is_known : runner.cli_commands command ≡ some used
    pub is_processed : used.process called (flags_of used flags args) ≡ none
    pub has_run : used.run called (flags_of used flags args) ≡ (output, none)
    pub fits : size output ≤ capacity
    pub is_text : copy output ≡ (t, none)
    pub is_last : h' ≡ called

  -- A `CliCommand` that returns without an error has found the command, processed it and run it with
  -- the flags, each without an error, and returns the text that was read without an error from what the command wrote, which the pipe
  -- could hold.
  pub cli_command-Ran :
      {t : String} {h' : History}
      → cli_command runner capacity size copy command flags args h ≡ (returned (t, none), h')
      → Ran t h'
  unfolding cli_command run_captured read_output
  cli_command-Ran {t} {h'} e = found _ refl
    where
      run :
          (c : Command)
          → runner.cli_commands command ≡ some c
          → c.process called (flags_of c flags args) ≡ none
          → (x : Returns (List ℕ)) → c.run called (flags_of c flags args) ≡ x
          → Ran t h'
      run c p q (output, some d) r = ground (arith, p, q, r)
      run c p q (output, none) r = record {
        used = c;
        output = output;
        is_known = p;
        is_processed = q;
        has_run = r;
        fits = ground (arith, p, q, r);
        is_text = ground (arith, p, q, r);
        is_last = ground (arith, p, q, r);
      }

      processed :
          (c : Command)
          → runner.cli_commands command ≡ some c
          → (x : Option Error) → c.process called (flags_of c flags args) ≡ x
          → Ran t h'
      processed c p (some d) q = ground (arith, p, q)
      processed c p none q = run c p q _ refl

      found : (x : Option Command) → runner.cli_commands command ≡ x → Ran t h'
      found none p = ground (arith, p)
      found (some c) p = processed c p _ refl
