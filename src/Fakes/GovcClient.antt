-- ===== src/Fakes/GovcClient.antt =====
-- govc/fakes/fake_govc_client.go.
pub mod Vms
pub mod Hardware
pub mod Disks
use bosh_esxi_cpi_release.Prelude.{ℕ, String, Bool, Option, List, [], ◌∷◌}
use bosh_esxi_cpi_release.Prelude.Int.{ℤ}
use bosh_esxi_cpi_release.Go.World.{Error, Flags, Returns}
use bosh_esxi_cpi_release.Go.Monad.{M}
use bosh_esxi_cpi_release.Fakes.Method.{
  FakeMethod, FakeProcedure, call, call_count, args_for, set_returns, set_returns_on_call, run,
  run_count, Argument, text, number, flags, texts, value, Invocations, add_invocation,
}

pub record FakeGovcClient : Type 0 where
  pub import_ovf_fake : FakeMethod (String × String) (Returns String)
  pub clone_vm_fake : FakeMethod (String × String) (Returns String)
  pub update_vm_iso_fake : FakeMethod (String × String) (Returns String)
  pub start_vm_fake : FakeMethod String (Returns String)
  pub has_vm_fake : FakeMethod String (Returns Bool)
  pub set_vm_network_adapter_fake : FakeMethod (String × String × String) (Option Error)
  pub set_vm_resources_fake : FakeMethod (String × ℤ × ℤ) (Option Error)
  pub create_ephemeral_disk_fake : FakeMethod (String × ℤ) (Option Error)
  pub create_disk_fake : FakeMethod (String × ℤ) (Option Error)
  pub attach_disk_fake : FakeMethod (String × String) (Option Error)
  pub detach_disk_fake : FakeMethod (String × String) (Option Error)
  pub destroy_disk_fake : FakeMethod String (Option Error)
  pub destroy_vm_fake : FakeMethod String (Returns String)
  pub recorded : Invocations (Unit {0})

unfoldable record_invocation : String → List (Argument (Unit {0})) → FakeGovcClient → FakeGovcClient
unfolding add_invocation
record_invocation key args fake = record fake { recorded = add_invocation key args fake.recorded }

unfoldable invocations : FakeGovcClient → Invocations (Unit {0})
invocations fake = fake.recorded
