-- ===== src/Apiv1.antt =====
-- What the program uses of the package apiv1 of bosh-cpi-go, which is not part of the repository's
-- own code: a parameter of the model. A `VMCID`, a `DiskCID` and a `StemcellCID` wrap a string, and
-- stand for it.
use bosh_esxi_cpi_release.Prelude.{String, List, ◌⊎◌}
use bosh_esxi_cpi_release.Go.World.{Error, Returns}
use bosh_esxi_cpi_release.Vm.Props.{VmProps}

-- The hint that `AttachDisk` passes to the agent.
pub record DiskHint : Type 0 where
  pub path : String
  pub volume_id : String
  pub lun : String

pub record Apiv1 : Type 1 where
  pub AgentEnv : Type 0
  pub AgentId : Type 0
  pub AgentOptions : Type 0
  pub VmEnv : Type 0
  pub Network : Type 0
  pub CloudProps : Type 0
  -- `cloudProps.As(&vmProps)`, from the variable's old value.
  pub vm_props_as : CloudProps → VmProps → Returns VmProps
  -- `Name` after `network.CloudProps().As(&networkCloudProps)`, whose error the code drops.
  pub network_name : Network → String
  pub set_mac : String → Network → Network
  pub for_vm : AgentId → String → List (String × Network) → VmEnv → AgentOptions → AgentEnv
  pub from_bytes : String → Error ⊎ AgentEnv
  pub as_bytes : AgentEnv → Returns String
  pub attach_system_disk : String → AgentEnv → AgentEnv
  pub attach_ephemeral_disk : String → AgentEnv → AgentEnv
  pub attach_persistent_disk : String → DiskHint → AgentEnv → AgentEnv
  pub detach_persistent_disk : String → AgentEnv → AgentEnv
