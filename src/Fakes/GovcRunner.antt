-- ===== src/Fakes/GovcRunner.antt =====
-- govc/fakes/fake_govc_runner.go.
pub mod Scripted
use bosh_esxi_cpi_release.Prelude.{ℕ, String, Option, List, [], ◌∷◌}
use bosh_esxi_cpi_release.Go.World.{Error, Flags, Returns}
use bosh_esxi_cpi_release.Go.Monad.{M}
use bosh_esxi_cpi_release.Fakes.Method.{
  FakeMethod, call, call_count, args_for, set_returns, set_returns_on_call, Argument, text, flags,
  texts, Invocations, add_invocation,
}

pub record FakeGovcRunner : Type 0 where
  pub cli_command_fake : FakeMethod (String × Flags × (Option (List String))) (Returns String)
  pub recorded : Invocations (Unit {0})

unfoldable pub record_invocation :
    String → List (Argument (Unit {0})) → FakeGovcRunner → FakeGovcRunner
unfolding add_invocation
record_invocation key args fake = record fake { recorded = add_invocation key args fake.recorded }

unfoldable pub invocations : FakeGovcRunner → Invocations (Unit {0})
invocations fake = fake.recorded

unfoldable pub cli_command :
    FakeGovcRunner → String → Flags → Option (List String) → M (Returns String) × FakeGovcRunner
unfolding record_invocation call
cli_command fake arg1 arg2 arg3 =
    let (answer, f) = call fake.cli_command_fake (arg1, arg2, arg3) in
    (
      answer,
      record_invocation "CliCommand" (text arg1 ∷ flags arg2 ∷ texts arg3 ∷ [])
          (record fake { cli_command_fake = f }),
    )

unfoldable pub cli_command_call_count : FakeGovcRunner → ℕ
unfolding call_count
cli_command_call_count fake = call_count fake.cli_command_fake

unfoldable pub cli_command_args_for_call :
    FakeGovcRunner → ℕ → M (String × Flags × (Option (List String)))
unfolding args_for
cli_command_args_for_call fake i = args_for fake.cli_command_fake i

unfoldable cli_command_returns : FakeGovcRunner → String → Option Error → FakeGovcRunner
unfolding set_returns
cli_command_returns fake result1 result2 = record fake {
  cli_command_fake = set_returns (result1, result2) fake.cli_command_fake;
}

unfoldable pub cli_command_returns_on_call :
    FakeGovcRunner → ℕ → String → Option Error → FakeGovcRunner
unfolding set_returns_on_call
cli_command_returns_on_call fake i result1 result2 = record fake {
  cli_command_fake = set_returns_on_call i (result1, result2) fake.cli_command_fake;
}
