-- ===== src/Tests/Removal.antt =====
-- `HasVM`, `DestroyVM` and `DestroyDisk` on the host with one machine.
use bosh_esxi_cpi_release.Prelude.{true, false, none, [], ◌∷◌, ◌≡◌, refl}
use bosh_esxi_cpi_release.Go.World.{History}
use bosh_esxi_cpi_release.Go.Monad.{returned}
use bosh_esxi_cpi_release.Govc.Client.{destroy_vm}
use bosh_esxi_cpi_release.Govc.Host.{info, listing, destroying, removing, powering_off}
use bosh_esxi_cpi_release.Govc.Removal.{IsGone, destroy_vm-IsGone, has_vm_lem}
use bosh_esxi_cpi_release.Govc.Repeat.{destroy_vm_again, destroy_disk-not_stored}
use bosh_esxi_cpi_release.Tests.World.{one_vm, one_vm_host, client}

abbrev destroyed : History
destroyed =
    removing "u" "vm-1"
    ∷ listing "u"
    ∷ destroying "u" "vm-1"
    ∷ powering_off "u" "vm-1"
    ∷ info "u" "vm-1"
    ∷ []

destroy_run : destroy_vm (client one_vm) "vm-1" [] ≡ (returned ("done", none), destroyed)
unfolding client
destroy_run = refl

destroy_vm-IsGone_example : IsGone one_vm "u" one_vm_host "vm-1" destroyed
unfolding client
destroy_vm-IsGone_example = destroy_vm-IsGone one_vm "u" one_vm_host "vm-1" [] refl

has_vm_lem_example :
    (true ≡ one_vm_host.registered [] "vm-1") × (info "u" "vm-1" ∷ [] ≡ info "u" "vm-1" ∷ [])
unfolding client
has_vm_lem_example = has_vm_lem one_vm "u" one_vm_host "vm-1" [] refl

destroy_vm_again_example :
    destroy_vm (client one_vm) "vm-1" destroyed
    ≡ (returned ("", none), listing "u" ∷ info "u" "vm-1" ∷ destroyed)
unfolding client
destroy_vm_again_example =
    destroy_vm_again one_vm "u" one_vm_host "vm-1" destroyed destroy_vm-IsGone_example refl refl

destroy_disk-not_stored_example : one_vm_host.stored (listing "u" ∷ []) "disk-1.vmdk" ≡ false
unfolding client
destroy_disk-not_stored_example = destroy_disk-not_stored one_vm "u" one_vm_host "disk-1" [] refl
