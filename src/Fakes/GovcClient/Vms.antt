-- ===== src/Fakes/GovcClient/Vms.antt =====
-- govc/fakes/fake_govc_client.go: the methods that make, start and destroy VMs.
use bosh_esxi_cpi_release.Prelude.{ℕ, String, Option, [], ◌∷◌}
use bosh_esxi_cpi_release.Go.World.{Error, Returns}
use bosh_esxi_cpi_release.Go.Monad.{M}
use bosh_esxi_cpi_release.Fakes.Method.{
  call, call_count, args_for, set_returns, set_returns_on_call, text,
}
use bosh_esxi_cpi_release.Fakes.GovcClient.{FakeGovcClient, record_invocation}

unfoldable import_ovf : FakeGovcClient → String → String → M (Returns String) × FakeGovcClient
unfolding record_invocation call
import_ovf fake arg1 arg2 =
    let (answer, f) = call fake.import_ovf_fake (arg1, arg2) in
    (
      answer,
      record_invocation "ImportOvf" (text arg1 ∷ text arg2 ∷ [])
          (record fake { import_ovf_fake = f }),
    )

unfoldable import_ovf_call_count : FakeGovcClient → ℕ
unfolding call_count
import_ovf_call_count fake = call_count fake.import_ovf_fake

unfoldable import_ovf_args_for_call : FakeGovcClient → ℕ → M (String × String)
unfolding args_for
import_ovf_args_for_call fake i = args_for fake.import_ovf_fake i

unfoldable import_ovf_returns : FakeGovcClient → String → Option Error → FakeGovcClient
unfolding set_returns
import_ovf_returns fake result1 result2 = record fake {
  import_ovf_fake = set_returns (result1, result2) fake.import_ovf_fake;
}

unfoldable import_ovf_returns_on_call : FakeGovcClient → ℕ → String → Option Error → FakeGovcClient
unfolding set_returns_on_call
import_ovf_returns_on_call fake i result1 result2 = record fake {
  import_ovf_fake = set_returns_on_call i (result1, result2) fake.import_ovf_fake;
}

unfoldable clone_vm : FakeGovcClient → String → String → M (Returns String) × FakeGovcClient
unfolding record_invocation call
clone_vm fake arg1 arg2 =
    let (answer, f) = call fake.clone_vm_fake (arg1, arg2) in
    (
      answer,
      record_invocation "CloneVM" (text arg1 ∷ text arg2 ∷ []) (record fake { clone_vm_fake = f }),
    )

unfoldable clone_vm_call_count : FakeGovcClient → ℕ
unfolding call_count
clone_vm_call_count fake = call_count fake.clone_vm_fake

unfoldable clone_vm_args_for_call : FakeGovcClient → ℕ → M (String × String)
unfolding args_for
clone_vm_args_for_call fake i = args_for fake.clone_vm_fake i

unfoldable clone_vm_returns : FakeGovcClient → String → Option Error → FakeGovcClient
unfolding set_returns
clone_vm_returns fake result1 result2 = record fake {
  clone_vm_fake = set_returns (result1, result2) fake.clone_vm_fake;
}

unfoldable clone_vm_returns_on_call : FakeGovcClient → ℕ → String → Option Error → FakeGovcClient
unfolding set_returns_on_call
clone_vm_returns_on_call fake i result1 result2 = record fake {
  clone_vm_fake = set_returns_on_call i (result1, result2) fake.clone_vm_fake;
}

unfoldable update_vm_iso : FakeGovcClient → String → String → M (Returns String) × FakeGovcClient
unfolding record_invocation call
update_vm_iso fake arg1 arg2 =
    let (answer, f) = call fake.update_vm_iso_fake (arg1, arg2) in
    (
      answer,
      record_invocation "UpdateVMIso" (text arg1 ∷ text arg2 ∷ [])
          (record fake { update_vm_iso_fake = f }),
    )

unfoldable update_vm_iso_call_count : FakeGovcClient → ℕ
unfolding call_count
update_vm_iso_call_count fake = call_count fake.update_vm_iso_fake

unfoldable update_vm_iso_args_for_call : FakeGovcClient → ℕ → M (String × String)
unfolding args_for
update_vm_iso_args_for_call fake i = args_for fake.update_vm_iso_fake i

unfoldable update_vm_iso_returns : FakeGovcClient → String → Option Error → FakeGovcClient
unfolding set_returns
update_vm_iso_returns fake result1 result2 = record fake {
  update_vm_iso_fake = set_returns (result1, result2) fake.update_vm_iso_fake;
}

unfoldable update_vm_iso_returns_on_call :
    FakeGovcClient → ℕ → String → Option Error → FakeGovcClient
unfolding set_returns_on_call
update_vm_iso_returns_on_call fake i result1 result2 = record fake {
  update_vm_iso_fake = set_returns_on_call i (result1, result2) fake.update_vm_iso_fake;
}

unfoldable start_vm : FakeGovcClient → String → M (Returns String) × FakeGovcClient
unfolding record_invocation call
start_vm fake arg1 =
    let (answer, f) = call fake.start_vm_fake arg1 in
    (answer, record_invocation "StartVM" (text arg1 ∷ []) (record fake { start_vm_fake = f }))

unfoldable start_vm_call_count : FakeGovcClient → ℕ
unfolding call_count
start_vm_call_count fake = call_count fake.start_vm_fake

unfoldable start_vm_args_for_call : FakeGovcClient → ℕ → M String
unfolding args_for
start_vm_args_for_call fake i = args_for fake.start_vm_fake i

unfoldable start_vm_returns : FakeGovcClient → String → Option Error → FakeGovcClient
unfolding set_returns
start_vm_returns fake result1 result2 = record fake {
  start_vm_fake = set_returns (result1, result2) fake.start_vm_fake;
}

unfoldable start_vm_returns_on_call : FakeGovcClient → ℕ → String → Option Error → FakeGovcClient
unfolding set_returns_on_call
start_vm_returns_on_call fake i result1 result2 = record fake {
  start_vm_fake = set_returns_on_call i (result1, result2) fake.start_vm_fake;
}

unfoldable destroy_vm : FakeGovcClient → String → M (Returns String) × FakeGovcClient
unfolding record_invocation call
destroy_vm fake arg1 =
    let (answer, f) = call fake.destroy_vm_fake arg1 in
    (answer, record_invocation "DestroyVM" (text arg1 ∷ []) (record fake { destroy_vm_fake = f }))

unfoldable destroy_vm_call_count : FakeGovcClient → ℕ
unfolding call_count
destroy_vm_call_count fake = call_count fake.destroy_vm_fake

unfoldable destroy_vm_args_for_call : FakeGovcClient → ℕ → M String
unfolding args_for
destroy_vm_args_for_call fake i = args_for fake.destroy_vm_fake i

unfoldable destroy_vm_returns : FakeGovcClient → String → Option Error → FakeGovcClient
unfolding set_returns
destroy_vm_returns fake result1 result2 = record fake {
  destroy_vm_fake = set_returns (result1, result2) fake.destroy_vm_fake;
}

unfoldable destroy_vm_returns_on_call : FakeGovcClient → ℕ → String → Option Error → FakeGovcClient
unfolding set_returns_on_call
destroy_vm_returns_on_call fake i result1 result2 = record fake {
  destroy_vm_fake = set_returns_on_call i (result1, result2) fake.destroy_vm_fake;
}
