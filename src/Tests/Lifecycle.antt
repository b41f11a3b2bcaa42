-- ===== src/Tests/Lifecycle.antt =====
-- A VM or a stemcell is created, other requests are made, and it is still there.
use bosh_esxi_cpi_release.Go.Monad.{Exit, returned}
use bosh_esxi_cpi_release.Prelude.{Bool, false, true, List, [], ◌∷◌, ◌≡◌, refl}
use bosh_esxi_cpi_release.Prelude.Int.{pos}
use bosh_esxi_cpi_release.Go.World.{History, Returns}
use bosh_esxi_cpi_release.Stemcell.Client.{new_client, extract_ovf, cleanup as cleanup_stemcells}
use bosh_esxi_cpi_release.Vm.Mac.{generate_mac_address}
use bosh_esxi_cpi_release.Vm.Settings.{AgentSettingsImpl, generate_agent_env_iso, cleanup}
use bosh_esxi_cpi_release.Action.CreateVm.{create_vm}
use bosh_esxi_cpi_release.Action.Vms.{has_vm as find_vm, delete_vm as remove_vm}
use bosh_esxi_cpi_release.Action.Stemcells.{
  create_stemcell as import_stemcell, delete_stemcell as remove_stemcell,
}
use bosh_esxi_cpi_release.Action.Disks.{create_disk as add_disk, delete_disk as remove_disk}
use bosh_esxi_cpi_release.Action.Sparing.{CpiSpares}
use bosh_esxi_cpi_release.Action.Factory.{Cpi, new}
use bosh_esxi_cpi_release.Action.Requests.{
  Request, create_disk, has_vm, delete_vm, delete_disk, create_stemcell, delete_stemcell,
  create_vm as create_vm_request, after_all, cpi_over,
}
use bosh_esxi_cpi_release.Action.Lifecycle.{cpi_over-CpiSpares, create_vm-has_vm}
use bosh_esxi_cpi_release.Action.Lifecycle.Stemcells.{create_stemcell-has_vm}
use bosh_esxi_cpi_release.Govc.Client.{has_vm as find_machine}
use bosh_esxi_cpi_release.Govc.Oracle.{world_client}
use bosh_esxi_cpi_release.Tests.Api.{small_api, props_asked}
use bosh_esxi_cpi_release.Tests.Settings.{config}
use bosh_esxi_cpi_release.Tests.World.{client}
use bosh_esxi_cpi_release.Tests.Registry.{registry, registry_host, registry-Registering}

abbrev settings : AgentSettingsImpl
settings = record { parent_temp_dir = "/tmp/agent-1" }

abbrev cpi : Cpi small_api
cpi = cpi_over small_api registry "u" 3 1 settings new_client config

abbrev requests : List (Request small_api)
requests =
    create_disk (pos 10)
    ∷ delete_vm "2"
    ∷ delete_disk "1"
    ∷ has_vm "3"
    ∷ create_stemcell "/image"
    ∷ []

abbrev created_at : History
created_at = (cpi.create_vm "agent" "9" props_asked (("a", "net-a") ∷ []) [] "env" []).1

abbrev answer_of : Exit (Returns Bool) → Bool
answer_of (returned (found, _)) = found
answer_of _ = false

create_vm-has_vm_example :
    answer_of (cpi.has_vm "1" (after_all small_api cpi requests created_at)).0 ≡ true
unfolding client new after_all generate_mac_address generate_agent_env_iso cleanup extract_ovf
    cleanup_stemcells create_vm find_vm import_stemcell remove_disk remove_vm add_disk
create_vm-has_vm_example =
    create_vm-has_vm small_api registry "u" 3 1 settings new_client config registry_host
      registry-Registering "agent" "9" props_asked (("a", "net-a") ∷ []) [] "env" []
      {h1 = created_at} refl refl requests refl refl

cpi_over-CpiSpares_example : CpiSpares small_api cpi
cpi_over-CpiSpares_example =
    cpi_over-CpiSpares small_api registry "u" 3 1 settings new_client config

abbrev stemcell_requests : List (Request small_api)
stemcell_requests =
    create_vm_request "agent" "1" props_asked (("a", "net-a") ∷ []) [] "env"
    ∷ delete_vm "1"
    ∷ delete_stemcell "2"
    ∷ delete_disk "1"
    ∷ []

abbrev imported_at : History
imported_at = (cpi.create_stemcell "/image" []).1

create_stemcell-has_vm_example :
    answer_of
      (find_machine
        (world_client registry "u")
        "cs-1"
        (after_all small_api cpi stemcell_requests imported_at)).0
    ≡ true
unfolding client new after_all generate_mac_address generate_agent_env_iso cleanup extract_ovf
    cleanup_stemcells create_vm import_stemcell remove_stemcell remove_disk remove_vm find_machine
create_stemcell-has_vm_example =
    create_stemcell-has_vm small_api registry "u" 3 1 settings new_client config registry_host
      registry-Registering "/image" [] {h1 = imported_at} refl refl stemcell_requests refl refl
