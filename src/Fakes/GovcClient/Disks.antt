-- ===== src/Fakes/GovcClient/Disks.antt =====
-- govc/fakes/fake_govc_client.go: the methods on disks.
use bosh_esxi_cpi_release.Prelude.{ℕ, String, Option, [], ◌∷◌}
use bosh_esxi_cpi_release.Prelude.Int.{ℤ}
use bosh_esxi_cpi_release.Go.World.{Error}
use bosh_esxi_cpi_release.Go.Monad.{M}
use bosh_esxi_cpi_release.Fakes.Method.{
  call, call_count, args_for, set_returns, set_returns_on_call, text, number,
}
use bosh_esxi_cpi_release.Fakes.GovcClient.{FakeGovcClient, record_invocation}

unfoldable create_ephemeral_disk : FakeGovcClient → String → ℤ → M (Option Error) × FakeGovcClient
unfolding record_invocation call
create_ephemeral_disk fake arg1 arg2 =
    let (answer, f) = call fake.create_ephemeral_disk_fake (arg1, arg2) in
    (
      answer,
      record_invocation "CreateEphemeralDisk" (text arg1 ∷ number arg2 ∷ [])
          (record fake { create_ephemeral_disk_fake = f }),
    )

unfoldable create_ephemeral_disk_call_count : FakeGovcClient → ℕ
unfolding call_count
create_ephemeral_disk_call_count fake = call_count fake.create_ephemeral_disk_fake

unfoldable create_ephemeral_disk_args_for_call : FakeGovcClient → ℕ → M (String × ℤ)
unfolding args_for
create_ephemeral_disk_args_for_call fake i = args_for fake.create_ephemeral_disk_fake i

unfoldable create_ephemeral_disk_returns : FakeGovcClient → Option Error → FakeGovcClient
unfolding set_returns
create_ephemeral_disk_returns fake result1 = record fake {
  create_ephemeral_disk_fake = set_returns result1 fake.create_ephemeral_disk_fake;
}

unfoldable create_ephemeral_disk_returns_on_call :
    FakeGovcClient → ℕ → Option Error → FakeGovcClient
unfolding set_returns_on_call
create_ephemeral_disk_returns_on_call fake i result1 = record fake {
  create_ephemeral_disk_fake = set_returns_on_call i result1 fake.create_ephemeral_disk_fake;
}

unfoldable create_disk : FakeGovcClient → String → ℤ → M (Option Error) × FakeGovcClient
unfolding record_invocation call
create_disk fake arg1 arg2 =
    let (answer, f) = call fake.create_disk_fake (arg1, arg2) in
    (
      answer,
      record_invocation "CreateDisk" (text arg1 ∷ number arg2 ∷ [])
          (record fake { create_disk_fake = f }),
    )

unfoldable create_disk_call_count : FakeGovcClient → ℕ
unfolding call_count
create_disk_call_count fake = call_count fake.create_disk_fake

unfoldable create_disk_args_for_call : FakeGovcClient → ℕ → M (String × ℤ)
unfolding args_for
create_disk_args_for_call fake i = args_for fake.create_disk_fake i

unfoldable create_disk_returns : FakeGovcClient → Option Error → FakeGovcClient
unfolding set_returns
create_disk_returns fake result1 = record fake {
  create_disk_fake = set_returns result1 fake.create_disk_fake;
}

unfoldable create_disk_returns_on_call : FakeGovcClient → ℕ → Option Error → FakeGovcClient
unfolding set_returns_on_call
create_disk_returns_on_call fake i result1 = record fake {
  create_disk_fake = set_returns_on_call i result1 fake.create_disk_fake;
}

unfoldable attach_disk : FakeGovcClient → String → String → M (Option Error) × FakeGovcClient
unfolding record_invocation call
attach_disk fake arg1 arg2 =
    let (answer, f) = call fake.attach_disk_fake (arg1, arg2) in
    (
      answer,
      record_invocation "AttachDisk" (text arg1 ∷ text arg2 ∷ [])
          (record fake { attach_disk_fake = f }),
    )

unfoldable attach_disk_call_count : FakeGovcClient → ℕ
unfolding call_count
attach_disk_call_count fake = call_count fake.attach_disk_fake

unfoldable attach_disk_args_for_call : FakeGovcClient → ℕ → M (String × String)
unfolding args_for
attach_disk_args_for_call fake i = args_for fake.attach_disk_fake i

unfoldable attach_disk_returns : FakeGovcClient → Option Error → FakeGovcClient
unfolding set_returns
attach_disk_returns fake result1 = record fake {
  attach_disk_fake = set_returns result1 fake.attach_disk_fake;
}

unfoldable attach_disk_returns_on_call : FakeGovcClient → ℕ → Option Error → FakeGovcClient
unfolding set_returns_on_call
attach_disk_returns_on_call fake i result1 = record fake {
  attach_disk_fake = set_returns_on_call i result1 fake.attach_disk_fake;
}

unfoldable detach_disk : FakeGovcClient → String → String → M (Option Error) × FakeGovcClient
unfolding record_invocation call
detach_disk fake arg1 arg2 =
    let (answer, f) = call fake.detach_disk_fake (arg1, arg2) in
    (
      answer,
      record_invocation "DetachDisk" (text arg1 ∷ text arg2 ∷ [])
          (record fake { detach_disk_fake = f }),
    )

unfoldable detach_disk_call_count : FakeGovcClient → ℕ
unfolding call_count
detach_disk_call_count fake = call_count fake.detach_disk_fake

unfoldable detach_disk_args_for_call : FakeGovcClient → ℕ → M (String × String)
unfolding args_for
detach_disk_args_for_call fake i = args_for fake.detach_disk_fake i

unfoldable detach_disk_returns : FakeGovcClient → Option Error → FakeGovcClient
unfolding set_returns
detach_disk_returns fake result1 = record fake {
  detach_disk_fake = set_returns result1 fake.detach_disk_fake;
}

unfoldable detach_disk_returns_on_call : FakeGovcClient → ℕ → Option Error → FakeGovcClient
unfolding set_returns_on_call
detach_disk_returns_on_call fake i result1 = record fake {
  detach_disk_fake = set_returns_on_call i result1 fake.detach_disk_fake;
}

unfoldable destroy_disk : FakeGovcClient → String → M (Option Error) × FakeGovcClient
unfolding record_invocation call
destroy_disk fake arg1 =
    let (answer, f) = call fake.destroy_disk_fake arg1 in
    (
      answer,
      record_invocation "DestroyDisk" (text arg1 ∷ []) (record fake { destroy_disk_fake = f }),
    )

unfoldable destroy_disk_call_count : FakeGovcClient → ℕ
unfolding call_count
destroy_disk_call_count fake = call_count fake.destroy_disk_fake

unfoldable destroy_disk_args_for_call : FakeGovcClient → ℕ → M String
unfolding args_for
destroy_disk_args_for_call fake i = args_for fake.destroy_disk_fake i

unfoldable destroy_disk_returns : FakeGovcClient → Option Error → FakeGovcClient
unfolding set_returns
destroy_disk_returns fake result1 = record fake {
  destroy_disk_fake = set_returns result1 fake.destroy_disk_fake;
}

unfoldable destroy_disk_returns_on_call : FakeGovcClient → ℕ → Option Error → FakeGovcClient
unfolding set_returns_on_call
destroy_disk_returns_on_call fake i result1 = record fake {
  destroy_disk_fake = set_returns_on_call i result1 fake.destroy_disk_fake;
}
