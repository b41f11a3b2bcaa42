-- ===== src/Action/Vms.antt =====
-- action/delete_vm.go, action/has_vm.go and action/misc.go.
use bosh_esxi_cpi_release.Prelude.{String, ◌<>◌, Bool, false, Option, none, some, List, [], ◌∷◌}
use bosh_esxi_cpi_release.Go.World.{Error, print_error, Returns}
use bosh_esxi_cpi_release.Go.Monad.{M, pure, tell, ◌>>=◌, ◌>>◌, check}
use bosh_esxi_cpi_release.Govc.Api.{GovcClient}

pub record DeleteVmMethod : Type 0 where
  pub govc_client : GovcClient

-- The error is printed on standard output.
unfoldable pub delete_vm : DeleteVmMethod → String → M (Option Error)
delete_vm c vm_cid = do
  let vm_id = "vm-" <> vm_cid
  (_, err) ← c.govc_client.destroy_vm vm_id
  check err (λ e. do tell (print_error e); pure (some e)) (pure none)

pub record HasVmMethod : Type 0 where
  pub govc_client : GovcClient

unfoldable pub has_vm : HasVmMethod → String → M (Returns Bool)
has_vm c vm_cid = do
  let vm_id = "vm-" <> vm_cid
  (vm_found, err) ← c.govc_client.has_vm vm_id
  check err (λ e. pure (false, some e)) (pure (vm_found, none))

pub record Info : Type 0 where
  pub stemcell_formats : List String

unfoldable pub info : Info
info = record { stemcell_formats = "general-ovf" ∷ "vsphere-ovf" ∷ [] }
