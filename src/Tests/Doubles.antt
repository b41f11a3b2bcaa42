-- ===== src/Tests/Doubles.antt =====
-- The repository's test of `StartVM`, with the answers of the command runner's double.
use bosh_esxi_cpi_release.Prelude.{none, some, List, [], ◌∷◌, ◌≡◌, refl}
use bosh_esxi_cpi_release.Go.World.{World}
use bosh_esxi_cpi_release.Go.Monad.{returned, panicked}
use bosh_esxi_cpi_release.Fakes.Method.{set_returns_on_call, call, call_count, args_for}
use bosh_esxi_cpi_release.Fakes.GovcRunner.{
  FakeGovcRunner, invocations, record_invocation, cli_command, cli_command_returns_on_call,
  cli_command_call_count, cli_command_args_for_call,
}
use bosh_esxi_cpi_release.Fakes.GovcRunner.Scripted.{
  Request, Agrees, scripted, from_fake-Agrees, commands_in,
}
use bosh_esxi_cpi_release.Govc.Start.{start_vm}
use bosh_esxi_cpi_release.Tests.World.{one_vm, client}

abbrev pub idle : FakeGovcRunner
idle = record {
  cli_command_fake = record {
    stub = none;
    args_for_call = [];
    returns = ("", none);
    returns_on_call = λ _. none;
  };
  recorded = λ _. none;
}

abbrev pub runner : FakeGovcRunner
unfolding cli_command_returns_on_call
runner =
    let r0 = cli_command_returns_on_call idle 0 "start-success" none in
    let r1 =
      cli_command_returns_on_call r0 1 "{\"VirtualMachines\":[{\"Runtime\":{\"Question\":null}}]}"
        none in
    cli_command_returns_on_call r1 2 "{\"VirtualMachines\":[{\"Runtime\":{\"Question\":true}}]}"
      none

abbrev pub requests : List Request
requests =
    ("vm.power", ("on", "true") ∷ ("u", "esx-url") ∷ ("k", "true") ∷ [], some ("vm-uuid" ∷ []))
    ∷ ("vm.info", ("u", "esx-url") ∷ ("k", "true") ∷ [], some ("vm-uuid" ∷ []))
    ∷ ("vm.info", ("u", "esx-url") ∷ ("k", "true") ∷ [], some ("vm-uuid" ∷ []))
    ∷ (
      "vm.question",
      ("answer", "2") ∷ ("vm", "vm-uuid") ∷ ("u", "esx-url") ∷ ("k", "true") ∷ [],
      none,
    )
    ∷ []

from_fake-Agrees_example : Agrees one_vm runner requests [] []
unfolding cli_command_returns_on_call set_returns_on_call invocations
from_fake-Agrees_example = from_fake-Agrees one_vm requests runner [] [] refl refl refl

abbrev pub started : World
started = scripted one_vm runner

start_vm_success : (start_vm (client started) "vm-uuid" 4 0 []).0 ≡ returned ("success", none)
unfolding client cli_command_returns_on_call set_returns_on_call
start_vm_success = refl

start_vm_commands : commands_in (start_vm (client started) "vm-uuid" 4 0 []).1 ≡ 4
unfolding client cli_command_returns_on_call set_returns_on_call
start_vm_commands = refl

abbrev pub used : FakeGovcRunner → List Request → FakeGovcRunner
used fake [] = fake
used fake ((c, f, a) ∷ rest) = used (cli_command fake c f a).1 rest

used_count : cli_command_call_count (used runner requests) ≡ 4
unfolding cli_command_call_count call_count cli_command call record_invocation
    cli_command_returns_on_call set_returns_on_call
used_count = refl

used_question : cli_command_args_for_call (used runner requests) 3 [] ≡ (
  returned (
    "vm.question",
    ("answer", "2") ∷ ("vm", "vm-uuid") ∷ ("u", "esx-url") ∷ ("k", "true") ∷ [],
    none,
  ),
  [],
)
unfolding cli_command_args_for_call args_for cli_command call record_invocation
    cli_command_returns_on_call set_returns_on_call
used_question = refl

used_too_far : cli_command_args_for_call runner 0 [] ≡ (panicked "index out of range", [])
unfolding cli_command_args_for_call args_for cli_command_returns_on_call set_returns_on_call
used_too_far = refl
