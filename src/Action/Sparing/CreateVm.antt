-- ===== src/Action/Sparing/CreateVm.antt =====
-- action/create_vm.go: what `CreateVM` deletes on the host, whatever it returns.
use bosh_esxi_cpi_release.Prelude.{String, ◌<>◌, none, some, List, [], ◌∷◌, ◌++◌, refl}
use bosh_esxi_cpi_release.Go.World.{World, generate_uuid, debug_log}
use bosh_esxi_cpi_release.Go.Avoids.{
  Avoids, avoids_bind, avoids_check, avoids_pure, avoids_ask, avoids_told, avoids_passed,
  avoids_passed_error,
}
use bosh_esxi_cpi_release.Apiv1.{Apiv1}
use bosh_esxi_cpi_release.Vm.Props.{VmProps, zero_props}
use bosh_esxi_cpi_release.Govc.Deletions.{deletes}
use bosh_esxi_cpi_release.Action.Sparing.Laws.{SettingsSpares}
use bosh_esxi_cpi_release.Govc.Sparing.{ClientSpares}
use bosh_esxi_cpi_release.Action.CreateVm.{
  CreateVmMethod, Networks, create_vm, build, resize, wire, equip, deliver, refresh, launch,
  add_adapters,
}

module _ (api : Apiv1) (c : CreateVmMethod api) (spares : ClientSpares c.govc_client)
    (settles : SettingsSpares c.agent_settings) where
  add_adapters-Avoids :
      (vm_id : String) (networks updated : Networks api)
      → Avoids deletes (add_adapters api c vm_id updated networks)
  unfolding add_adapters
  add_adapters-Avoids vm_id [] updated = avoids_pure (updated, none)
  add_adapters-Avoids vm_id ((name, network) ∷ networks) updated =
      avoids_passed updated settles.addresses λ mac.
        avoids_passed_error updated (spares.wires vm_id (api.network_name network) mac)
          (add_adapters-Avoids vm_id networks (updated ++ ((name, api.set_mac mac network) ∷ [])))

  launch-Avoids : (vm_uuid : String) → Avoids deletes (launch api c vm_uuid)
  unfolding launch
  launch-Avoids vm_uuid = avoids_bind settles.cleans λ u1.
      avoids_passed vm_uuid (spares.starts ("vm-" <> vm_uuid)) λ r. avoids_pure (vm_uuid, none)

  build-Avoids :
      (agent_id : api.AgentId) (stemcell_cid vm_uuid : String) (props : VmProps)
      (networks : Networks api) (vm_env : api.VmEnv)
      → Avoids deletes (build api c agent_id stemcell_cid vm_uuid props networks vm_env)
  unfolding build resize wire equip deliver refresh
  build-Avoids agent_id stemcell_cid vm_uuid props networks vm_env =
      let vm_id = "vm-" <> vm_uuid in
      avoids_passed vm_uuid (spares.clones ("cs-" <> stemcell_cid) vm_id) λ r.
        avoids_passed_error vm_uuid (spares.resizes vm_id props.cpu props.ram) (
          avoids_passed vm_uuid (add_adapters-Avoids vm_id networks []) λ us.
            avoids_passed_error vm_uuid (spares.equips vm_id props.disk) (
              avoids_passed vm_uuid (settles.generates _) λ path.
                avoids_passed vm_uuid (spares.updates vm_id path) λ r'. launch-Avoids vm_uuid))

  pub create_vm-Avoids :
      (w : World) (agent_id : api.AgentId) (stemcell_cid : String) (cloud_props : api.CloudProps)
      (networks : Networks api) (disks : List String) (vm_env : api.VmEnv)
      → Avoids deletes (create_vm api w c agent_id stemcell_cid cloud_props networks disks vm_env)
  unfolding create_vm
  create_vm-Avoids w agent_id stemcell_cid cloud_props networks disks vm_env =
      avoids_told (debug_log "create-vm" "networks") refl (
        avoids_bind (avoids_ask generate_uuid w.uuid refl) λ r.
          let (props, err) = api.vm_props_as cloud_props zero_props in
          avoids_check err (λ e. avoids_pure (r.0, some e))
            (build-Avoids agent_id stemcell_cid r.0 props networks vm_env))
