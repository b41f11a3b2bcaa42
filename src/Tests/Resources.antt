-- ===== src/Tests/Resources.antt =====
-- `SetVMResources` on the host with one machine.
use bosh_esxi_cpi_release.Prelude.{String, [], ◌∷◌, ◌≡◌, refl}
use bosh_esxi_cpi_release.Prelude.Decimal.Reading.{value_from}
use bosh_esxi_cpi_release.Prelude.Decimal.{itoa}
use bosh_esxi_cpi_release.Govc.Resources.{changing, set_vm_resources-changing}
use bosh_esxi_cpi_release.Tests.World.{one_vm, client}

set_vm_resources-changing_example :
    (c m : String) × (changing one_vm "u" "vm-1" "2" "1024" ∷ []
      ≡ changing one_vm "u" "vm-1" c m ∷ [])
    × (value_from 0 c ≡ 2)
    × (value_from 0 m ≡ 1024)
unfolding client itoa
set_vm_resources-changing_example = set_vm_resources-changing one_vm "u" "vm-1" 2 1024 [] refl
