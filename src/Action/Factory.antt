-- ===== src/Action/Factory.antt =====
-- action/factory.go: the CPI as the record of its methods.
use bosh_esxi_cpi_release.Prelude.{String, Bool, Option, none, List}
use bosh_esxi_cpi_release.Prelude.Int.{ℤ}
use bosh_esxi_cpi_release.Go.World.{Error, print_metadata, World, Returns}
use bosh_esxi_cpi_release.Go.Monad.{M, pure, panic, tell, ◌>>◌}
use bosh_esxi_cpi_release.Apiv1.{Apiv1}
use bosh_esxi_cpi_release.Config.Load.{Config, get_agent_options}
use bosh_esxi_cpi_release.Govc.Api.{GovcClient}
use bosh_esxi_cpi_release.Stemcell.Client.{StemcellClient}
use bosh_esxi_cpi_release.Vm.Settings.{AgentSettings}
use bosh_esxi_cpi_release.Action.Stemcells.{create_stemcell, delete_stemcell}
use bosh_esxi_cpi_release.Action.Disks.{create_disk, delete_disk, attach_disk, detach_disk}
use bosh_esxi_cpi_release.Action.Vms.{delete_vm, has_vm, Info, info}
use bosh_esxi_cpi_release.Action.CreateVm.{Networks, create_vm}

-- `SetVMMetadata` and `SetDiskMetadata`: the metadata are printed on standard error. The text is the
-- metadata as `%s` prints them.
unfoldable pub set_metadata : String → M (Option Error)
set_metadata metadata = tell (print_metadata metadata) >> pure none

module _ (api : Apiv1) where
  pub record Cpi : Type 0 where
    pub create_stemcell : String → M (Returns String)
    pub delete_stemcell : String → M (Option Error)
    pub create_vm :
        api.AgentId
        → String
        → api.CloudProps
        → Networks api
        → List String
        → api.VmEnv
        → M (Returns String)
    pub delete_vm : String → M (Option Error)
    pub has_vm : String → M (Returns Bool)
    pub create_disk : ℤ → M (Returns String)
    pub attach_disk : String → String → M (Option Error)
    pub detach_disk : String → String → M (Option Error)
    pub delete_disk : String → M (Option Error)
    pub info : M Info
    pub set_vm_metadata : String → String → M (Option Error)
    pub set_disk_metadata : String → String → M (Option Error)
    pub calculate_vm_cloud_properties : M (Returns api.CloudProps)
    pub reboot_vm : String → M (Option Error)
    pub get_disks : String → M (Returns (List String))
    pub has_disk : String → M (Returns Bool)

  pub record Factory : Type 0 where
    pub govc_client : GovcClient
    pub stemcell_client : StemcellClient
    pub agent_settings : AgentSettings api.AgentEnv
    pub config : Config api.AgentOptions

  -- `Factory.New`. The last four methods only panic.
  unfoldable pub new : World → Factory → Cpi
  unfolding set_metadata get_agent_options
  new w f = record {
    create_stemcell =
        create_stemcell w
          (record { govc_client = f.govc_client; stemcell_client = f.stemcell_client });
    delete_stemcell = delete_stemcell (record { govc_client = f.govc_client });
    create_vm = create_vm api w (record {
      govc_client = f.govc_client;
      agent_settings = f.agent_settings;
      agent_options = get_agent_options f.config;
    });
    delete_vm = delete_vm (record { govc_client = f.govc_client });
    has_vm = has_vm (record { govc_client = f.govc_client });
    create_disk = create_disk w (record { govc_client = f.govc_client });
    attach_disk =
        attach_disk api (record { govc_client = f.govc_client; agent_settings = f.agent_settings });
    detach_disk =
        detach_disk api (record { govc_client = f.govc_client; agent_settings = f.agent_settings });
    delete_disk = delete_disk (record { govc_client = f.govc_client });
    info = pure info;
    set_vm_metadata = λ cid metadata. set_metadata metadata;
    set_disk_metadata = λ cid metadata. set_metadata metadata;
    calculate_vm_cloud_properties = panic "CalculateVMCloudProperties";
    reboot_vm = λ cid. panic "RebootVM";
    get_disks = λ cid. panic "GetDisks";
    has_disk = λ cid. panic "HasDisk";
  }
