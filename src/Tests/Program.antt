-- ===== src/Tests/Program.antt =====
-- A run of the program that serves one request.
use bosh_esxi_cpi_release.Prelude.{Option, [], refl}
use bosh_esxi_cpi_release.Go.World.{Error, History}
use bosh_esxi_cpi_release.Go.Monad.{M}
use bosh_esxi_cpi_release.Json.Read.{read}
use bosh_esxi_cpi_release.Json.Decode.{decode_string, decode_struct, decode_slice}
use bosh_esxi_cpi_release.Config.Load.{new_config_from_path}
use bosh_esxi_cpi_release.Govc.Oracle.{world_runner}
use bosh_esxi_cpi_release.Vm.Settings.{new_agent_settings}
use bosh_esxi_cpi_release.Action.Factory.{Cpi, new}
use bosh_esxi_cpi_release.Main.{main}
use bosh_esxi_cpi_release.Main.Status.{Served, main-Served}
use bosh_esxi_cpi_release.Tests.Api.{small_api}
use bosh_esxi_cpi_release.Tests.Settings.{configured}

abbrev tell_metadata : Cpi small_api → M (Option Error)
tell_metadata cpi = cpi.set_vm_metadata "1" "metadata"

abbrev exited_at : History
exited_at =
    (main small_api decode_string "" configured (world_runner configured) tell_metadata 3 1
      "/cpi.json" []).1

main-Served_example :
    Served small_api decode_string "" configured
      (world_runner configured)
      tell_metadata
      3
      1
      "/cpi.json"
      []
      exited_at
unfolding main read decode_string decode_struct decode_slice new_config_from_path new_agent_settings
    new
main-Served_example =
    main-Served small_api decode_string "" configured (world_runner configured) tell_metadata 3 1
      "/cpi.json" [] refl
