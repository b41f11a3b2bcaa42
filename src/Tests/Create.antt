-- ===== src/Tests/Create.antt =====
-- `CreateVM` on a host that asks its question once the machine is told to start.
use bosh_esxi_cpi_release.Prelude.{if◌then◌else◌, str_eq, some, none, [], ◌∷◌, ◌≡◌, refl}
use bosh_esxi_cpi_release.Go.World.{World, external, History, generate_uuid}
use bosh_esxi_cpi_release.Govc.Client.{new_client}
use bosh_esxi_cpi_release.Vm.Props.{VmProps, zero_props}
use bosh_esxi_cpi_release.Vm.Mac.{generate_mac_address}
use bosh_esxi_cpi_release.Vm.Settings.{agent_settings, generate_agent_env_iso, cleanup}
use bosh_esxi_cpi_release.Action.CreateVm.{CreateVmMethod, Networks, create_vm}
use bosh_esxi_cpi_release.Action.CreateVm.Stages.{Built, logged_networks, create_vm-Built}
use bosh_esxi_cpi_release.Action.CreateVm.Outcomes.{Concludes, create_vm-Concludes}
use bosh_esxi_cpi_release.Go.Monad.{returned}
use bosh_esxi_cpi_release.Tests.Api.{small_api, props_asked}
use bosh_esxi_cpi_release.Tests.World.{client}
use bosh_esxi_cpi_release.Tests.Start.{asking}

abbrev method : CreateVmMethod small_api
method = record {
  govc_client = new_client (client asking) 3 1;
  agent_settings = agent_settings small_api asking (record { parent_temp_dir = "/tmp/agent-1" });
  agent_options = "options";
}

abbrev networks : Networks small_api
networks = ("a", "net-a") ∷ ("b", "net-b") ∷ []

abbrev built_at : History
built_at = (create_vm small_api asking method "agent" "9" props_asked networks [] "env" []).1

create_vm-Built_example :
    ("1" ≡ (asking.uuid []).0)
    × (props : VmProps) × (small_api.vm_props_as props_asked zero_props ≡ (props, none))
    × Built small_api method "agent" "9" "1" props networks "env"
        (generate_uuid ∷ logged_networks [])
        built_at
unfolding client create_vm generate_mac_address generate_agent_env_iso cleanup
create_vm-Built_example =
    create_vm-Built small_api asking method "agent" "9" props_asked networks [] "env" [] refl

-- A host where no adapter can be added.
abbrev unplugged : World
unplugged = record asking {
  run_cli = λ h cmd flags args.
      if str_eq cmd "vm.network.add"
      then ("", some (external "no such network"))
      else asking.run_cli h cmd flags args;
}

abbrev unplugged_method : CreateVmMethod small_api
unplugged_method = record method { govc_client = new_client (client unplugged) 3 1 }

unplugged_error :
    (create_vm small_api unplugged unplugged_method "agent" "9" props_asked networks [] "env" []).0
    ≡ returned ("1", some (external "no such network"))
unfolding client create_vm generate_mac_address
unplugged_error = refl

create_vm-Concludes_example :
    Concludes small_api unplugged unplugged_method "agent" "9" props_asked networks [] "env" []
      (props_asked, none)
      (create_vm small_api unplugged unplugged_method "agent" "9" props_asked networks [] "env" [])
create_vm-Concludes_example =
    create_vm-Concludes small_api unplugged unplugged_method "agent" "9" props_asked networks []
      "env" []
