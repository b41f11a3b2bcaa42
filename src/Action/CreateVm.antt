-- ===== src/Action/CreateVm.antt =====
-- action/create_vm.go. The networks come as a list, in the order in which the loop over the map
-- meets them.
pub mod Stages
pub mod Machine
pub mod Outcomes
use bosh_esxi_cpi_release.Prelude.{String, ◌<>◌, none, some, List, [], ◌∷◌, ◌++◌}
use bosh_esxi_cpi_release.Go.World.{generate_uuid, debug_log, World, Returns}
use bosh_esxi_cpi_release.Go.Monad.{M, pure, ask, tell, ◌>>=◌, ◌>>◌, check}
use bosh_esxi_cpi_release.Apiv1.{Apiv1}
use bosh_esxi_cpi_release.Govc.Api.{GovcClient}
use bosh_esxi_cpi_release.Vm.Props.{VmProps, zero_props}
use bosh_esxi_cpi_release.Vm.Settings.{AgentSettings}

module _ (api : Apiv1) where
  pub record CreateVmMethod : Type 0 where
    pub govc_client : GovcClient
    pub agent_settings : AgentSettings api.AgentEnv
    pub agent_options : api.AgentOptions

  abbrev pub Networks : Type 0
  Networks = List (String × api.Network)

  -- The loop over the networks, from the networks that it has updated.
  unfoldable pub add_adapters : CreateVmMethod → String → Networks → Networks → M (Returns Networks)
  add_adapters c vm_id updated [] = pure (updated, none)
  add_adapters c vm_id updated ((network_name, network) ∷ networks) = do
    (mac_address, err) ← c.agent_settings.generate_mac_address
    check err (λ e. pure (updated, some e))
        do
          err ← c.govc_client.set_vm_network_adapter vm_id (api.network_name network) mac_address
          check err (λ e. pure (updated, some e))
              (add_adapters c vm_id
                (updated ++ ((network_name, api.set_mac mac_address network) ∷ [])) networks)

  -- The parts of `CreateVM`, from the last to the first.
  unfoldable pub launch : CreateVmMethod → String → M (Returns String)
  launch c vm_uuid = do
    c.agent_settings.cleanup
    (_, err) ← c.govc_client.start_vm ("vm-" <> vm_uuid)
    check err (λ e. pure (vm_uuid, some e)) (pure (vm_uuid, none))

  unfoldable pub refresh : CreateVmMethod → String → String → M (Returns String)
  unfolding launch
  refresh c vm_uuid env_iso_path = do
    (_, err) ← c.govc_client.update_vm_iso ("vm-" <> vm_uuid) env_iso_path
    check err (λ e. pure (vm_uuid, some e)) (launch c vm_uuid)

  unfoldable pub deliver : CreateVmMethod → String → api.AgentEnv → M (Returns String)
  unfolding refresh
  deliver c vm_uuid agent_env = do
    (env_iso_path, err) ← c.agent_settings.generate_agent_env_iso agent_env
    check err (λ e. pure (vm_uuid, some e)) (refresh c vm_uuid env_iso_path)

  unfoldable pub equip : CreateVmMethod → String → VmProps → api.AgentEnv → M (Returns String)
  unfolding deliver
  equip c vm_uuid vm_props agent_env = do
    err ← c.govc_client.create_ephemeral_disk ("vm-" <> vm_uuid) vm_props.disk
    check err (λ e. pure (vm_uuid, some e))
        (deliver c vm_uuid (api.attach_ephemeral_disk "1" agent_env))

  unfoldable pub wire :
      CreateVmMethod → api.AgentId → String → VmProps → Networks → api.VmEnv → M (Returns String)
  unfolding add_adapters equip
  wire c agent_id vm_uuid vm_props networks vm_env = do
    (updated_networks, err) ← add_adapters c ("vm-" <> vm_uuid) [] networks
    check err (λ e. pure (vm_uuid, some e))
        (equip c vm_uuid vm_props (
          api.attach_system_disk "0"
            (api.for_vm agent_id vm_uuid updated_networks vm_env c.agent_options)))

  unfoldable pub resize :
      CreateVmMethod → api.AgentId → String → VmProps → Networks → api.VmEnv → M (Returns String)
  unfolding wire
  resize c agent_id vm_uuid vm_props networks vm_env = do
    err ← c.govc_client.set_vm_resources ("vm-" <> vm_uuid) vm_props.cpu vm_props.ram
    check err (λ e. pure (vm_uuid, some e)) (wire c agent_id vm_uuid vm_props networks vm_env)

  unfoldable pub build :
      CreateVmMethod
      → api.AgentId
      → String
      → String
      → VmProps
      → Networks
      → api.VmEnv
      → M (Returns String)
  unfolding resize
  build c agent_id stemcell_cid vm_uuid vm_props networks vm_env = do
    (_, err) ← c.govc_client.clone_vm ("cs-" <> stemcell_cid) ("vm-" <> vm_uuid)
    check err (λ e. pure (vm_uuid, some e)) (resize c agent_id vm_uuid vm_props networks vm_env)

  unfoldable pub create_vm :
      World
      → CreateVmMethod
      → api.AgentId
      → String
      → api.CloudProps
      → Networks
      → List String
      → api.VmEnv
      → M (Returns String)
  unfolding build
  create_vm w c agent_id stemcell_cid cloud_props networks associated_disk_cids vm_env = do
    tell (debug_log "create-vm" "networks")
    (vm_uuid, _) ← ask generate_uuid w.uuid
    let (vm_props, err) = api.vm_props_as cloud_props zero_props
    check err (λ e. pure (vm_uuid, some e))
        (build c agent_id stemcell_cid vm_uuid vm_props networks vm_env)
