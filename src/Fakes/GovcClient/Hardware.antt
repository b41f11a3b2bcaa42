-- ===== src/Fakes/GovcClient/Hardware.antt =====
-- govc/fakes/fake_govc_client.go: the methods that ask for a VM and set its hardware.
use bosh_esxi_cpi_release.Prelude.{ℕ, String, Bool, Option, [], ◌∷◌}
use bosh_esxi_cpi_release.Prelude.Int.{ℤ}
use bosh_esxi_cpi_release.Go.World.{Error, Returns}
use bosh_esxi_cpi_release.Go.Monad.{M}
use bosh_esxi_cpi_release.Fakes.Method.{
  call, call_count, args_for, set_returns, set_returns_on_call, text, number,
}
use bosh_esxi_cpi_release.Fakes.GovcClient.{FakeGovcClient, record_invocation}

unfoldable has_vm : FakeGovcClient → String → M (Returns Bool) × FakeGovcClient
unfolding record_invocation call
has_vm fake arg1 =
    let (answer, f) = call fake.has_vm_fake arg1 in
    (answer, record_invocation "HasVM" (text arg1 ∷ []) (record fake { has_vm_fake = f }))

unfoldable has_vm_call_count : FakeGovcClient → ℕ
unfolding call_count
has_vm_call_count fake = call_count fake.has_vm_fake

unfoldable has_vm_args_for_call : FakeGovcClient → ℕ → M String
unfolding args_for
has_vm_args_for_call fake i = args_for fake.has_vm_fake i

unfoldable has_vm_returns : FakeGovcClient → Bool → Option Error → FakeGovcClient
unfolding set_returns
has_vm_returns fake result1 result2 = record fake {
  has_vm_fake = set_returns (result1, result2) fake.has_vm_fake;
}

unfoldable has_vm_returns_on_call : FakeGovcClient → ℕ → Bool → Option Error → FakeGovcClient
unfolding set_returns_on_call
has_vm_returns_on_call fake i result1 result2 = record fake {
  has_vm_fake = set_returns_on_call i (result1, result2) fake.has_vm_fake;
}

unfoldable set_vm_network_adapter :
    FakeGovcClient → String → String → String → M (Option Error) × FakeGovcClient
unfolding record_invocation call
set_vm_network_adapter fake arg1 arg2 arg3 =
    let (answer, f) = call fake.set_vm_network_adapter_fake (arg1, arg2, arg3) in
    (
      answer,
      record_invocation "SetVMNetworkAdapter" (text arg1 ∷ text arg2 ∷ text arg3 ∷ [])
          (record fake { set_vm_network_adapter_fake = f }),
    )

unfoldable set_vm_network_adapter_call_count : FakeGovcClient → ℕ
unfolding call_count
set_vm_network_adapter_call_count fake = call_count fake.set_vm_network_adapter_fake

unfoldable set_vm_network_adapter_args_for_call : FakeGovcClient → ℕ → M (String × String × String)
unfolding args_for
set_vm_network_adapter_args_for_call fake i = args_for fake.set_vm_network_adapter_fake i

unfoldable set_vm_network_adapter_returns : FakeGovcClient → Option Error → FakeGovcClient
unfolding set_returns
set_vm_network_adapter_returns fake result1 = record fake {
  set_vm_network_adapter_fake = set_returns result1 fake.set_vm_network_adapter_fake;
}

unfoldable set_vm_network_adapter_returns_on_call :
    FakeGovcClient → ℕ → Option Error → FakeGovcClient
unfolding set_returns_on_call
set_vm_network_adapter_returns_on_call fake i result1 = record fake {
  set_vm_network_adapter_fake = set_returns_on_call i result1 fake.set_vm_network_adapter_fake;
}

unfoldable set_vm_resources : FakeGovcClient → String → ℤ → ℤ → M (Option Error) × FakeGovcClient
unfolding record_invocation call
set_vm_resources fake arg1 arg2 arg3 =
    let (answer, f) = call fake.set_vm_resources_fake (arg1, arg2, arg3) in
    (
      answer,
      record_invocation "SetVMResources" (text arg1 ∷ number arg2 ∷ number arg3 ∷ [])
          (record fake { set_vm_resources_fake = f }),
    )

unfoldable set_vm_resources_call_count : FakeGovcClient → ℕ
unfolding call_count
set_vm_resources_call_count fake = call_count fake.set_vm_resources_fake

unfoldable set_vm_resources_args_for_call : FakeGovcClient → ℕ → M (String × ℤ × ℤ)
unfolding args_for
set_vm_resources_args_for_call fake i = args_for fake.set_vm_resources_fake i

unfoldable set_vm_resources_returns : FakeGovcClient → Option Error → FakeGovcClient
unfolding set_returns
set_vm_resources_returns fake result1 = record fake {
  set_vm_resources_fake = set_returns result1 fake.set_vm_resources_fake;
}

unfoldable set_vm_resources_returns_on_call : FakeGovcClient → ℕ → Option Error → FakeGovcClient
unfolding set_returns_on_call
set_vm_resources_returns_on_call fake i result1 = record fake {
  set_vm_resources_fake = set_returns_on_call i result1 fake.set_vm_resources_fake;
}
