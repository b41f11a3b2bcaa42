-- ===== src/Action/Lifecycle.antt =====
-- action/create_vm.go, action/has_vm.go and action/factory.go over a host: the life of a VM.
pub mod Stemcells
use bosh_esxi_cpi_release.Prelude.{◌∙◌, ℕ, String, ◌<>◌, Bool, true, ◌≡◌, arith, none, List}
use bosh_esxi_cpi_release.Go.World.{World, History}
use bosh_esxi_cpi_release.Go.Monad.{returned}
use bosh_esxi_cpi_release.Go.Avoids.{Grows, Grows-weaken, here, Grows-by, Grows-trans}
use bosh_esxi_cpi_release.Apiv1.{Apiv1}
use bosh_esxi_cpi_release.Config.Load.{Config}
use bosh_esxi_cpi_release.Vm.Props.{VmProps}
use bosh_esxi_cpi_release.Vm.Settings.{AgentSettingsImpl}
use bosh_esxi_cpi_release.Stemcell.Client.{StemcellClientImpl}
use bosh_esxi_cpi_release.Govc.Client.{clone_vm}
use bosh_esxi_cpi_release.Govc.Commands.{
  copy_datastore_stemcell, register_datastore_vm, config_vm_hardware,
}
use bosh_esxi_cpi_release.Govc.Oracle.{world_client}
use bosh_esxi_cpi_release.Govc.Deletions.{is_name, deletes, deletes-any_lem}
use bosh_esxi_cpi_release.Govc.Host.{Host}
use bosh_esxi_cpi_release.Govc.Registering.{Registering}
use bosh_esxi_cpi_release.Govc.Sparing.{ClientSpares, new_client-ClientSpares}
use bosh_esxi_cpi_release.Action.Sparing.Laws.{
  SettingsSpares, agent_settings-SettingsSpares, stemcell_client-StemcellSpares,
}
use bosh_esxi_cpi_release.Action.Sparing.{CpiSpares, new-CpiSpares}
use bosh_esxi_cpi_release.Action.CreateVm.{CreateVmMethod, Networks}
use bosh_esxi_cpi_release.Action.CreateVm.Stages.{Wired, unwired, wired, Built, create_vm-Built}
use bosh_esxi_cpi_release.Action.Factory.{new}
use bosh_esxi_cpi_release.Action.Gone.{has_vm-registered}
use bosh_esxi_cpi_release.Action.Requests.{Request, after_all, all_leave, cpi_over}
use bosh_esxi_cpi_release.Action.Requests.Kept.{all_leave-named, after_all-Grows, registered-Grows}

module _ (api : Apiv1) (c : CreateVmMethod api) (spares : ClientSpares c.govc_client)
    (settles : SettingsSpares c.agent_settings) where
  Wired-Grows :
      {vm_id : String} {networks added : Networks api} {h h' : History}
      → Wired api c vm_id networks added h h'
      → Grows deletes h h'
  Wired-Grows unwired = here
  Wired-Grows {vm_id} (wired {mac = mac} {network = network} p q rest) =
      Grows-trans (Grows-by settles.addresses p) (
        Grows-trans (Grows-by (spares.wires vm_id (api.network_name network) mac) q)
          (Wired-Grows rest))

  -- From the clone on.
  Built-Grows :
      {agent_id : api.AgentId} {stemcell_cid cid : String} {props : VmProps}
      {networks : Networks api} {vm_env : api.VmEnv} {h h' : History}
      → (b : Built api c agent_id stemcell_cid cid props networks vm_env h h')
      → Grows deletes b.cloned h'
  Built-Grows {cid = cid} {props = props} b =
      let vm_id = "vm-" <> cid in
      Grows-trans (Grows-by (spares.resizes vm_id props.cpu props.ram) b.resizes) (
        Grows-trans (Wired-Grows b.wires) (
          Grows-trans (Grows-by (spares.equips vm_id props.disk) b.equips) (
            Grows-trans (Grows-by (settles.generates _) b.delivers) (
              Grows-trans (Grows-by (spares.updates vm_id b.iso_path) b.refreshes) (
                Grows-trans (Grows-by settles.cleans b.cleans)
                  (Grows-by (spares.starts vm_id) b.starts))))))

module _ (w : World) (u : String) (host : Host w u) (laws : Registering w u host) where
  clone_vm-registered :
      (source clone : String) (h : History) {t : String} {h' : History}
      → is_name clone ≡ true
      → clone_vm (world_client w u) source clone h ≡ (returned (t, none), h')
      → host.registered h' clone ≡ true
  unfolding clone_vm copy_datastore_stemcell register_datastore_vm config_vm_hardware
  clone_vm-registered source clone h plain e = grind (arith, e, plain, laws.registers, laws.keeps)

module _ (api : Apiv1) (w : World) (u : String) (rounds turn : ℕ) (settings : AgentSettingsImpl)
    (stemcells : StemcellClientImpl) (config : Config api.AgentOptions) where
  -- Over any world and whatever comes of the call, errors and panics included: every command that a
  -- method of the CPI runs is a harmless one (one that deletes no machine, disk or file, `device.remove` only
  -- with the flag that keeps the disk's file), but for the deletions of `DeleteVM`, `DeleteStemcell` and
  -- `DeleteDisk`, whose one argument is the name made of the CID (`vm-…`, `cs-…`, `disk-….vmdk`).
  pub cpi_over-CpiSpares : CpiSpares api (cpi_over api w u rounds turn settings stemcells config)
  cpi_over-CpiSpares =
      new-CpiSpares api w _ (new_client-ClientSpares w u rounds turn)
        (agent_settings-SettingsSpares api w settings) (stemcell_client-StemcellSpares w stemcells)

  module _ (host : Host w u) (laws : Registering w u host) where
    create_vm-registered :
        (agent_id : api.AgentId) (stemcell_cid : String) (cloud_props : api.CloudProps)
        (networks : Networks api) (disks : List String) (vm_env : api.VmEnv) (h : History)
        {cid : String} {h' : History}
        → (cpi_over api w u rounds turn settings stemcells config).create_vm agent_id stemcell_cid
            cloud_props networks disks vm_env h
          ≡ (returned (cid, none), h')
        → is_name ("vm-" <> cid) ≡ true
        → host.registered h' ("vm-" <> cid) ≡ true
    unfolding new
    create_vm-registered agent_id stemcell_cid cloud_props networks disks vm_env h {cid} e plain =
        let (q, props, p, b) =
          create_vm-Built api w _ agent_id stemcell_cid cloud_props networks disks vm_env h e in
        let g =
          Built-Grows api _ (new_client-ClientSpares w u rounds turn)
            (agent_settings-SettingsSpares api w settings) b in
        registered-Grows w u host laws ("vm-" <> cid) (Grows-weaken (deletes-any_lem _) g) (
          clone_vm-registered w u host laws ("cs-" <> stemcell_cid) ("vm-" <> cid) _ plain b.clones)

    -- On a host that keeps the laws of `Host` and of `Registering`: once `CreateVM` has returned a CID
    -- without an error, whose machine's name govc reads as one name, and after any further requests to
    -- the CPI, whatever they return, none of which is a `DeleteVM` of this CID or a deletion for a CID
    -- whose name govc does not read as one name, a `HasVM` of the CID that returns without an error
    -- answers that the VM exists.
    pub create_vm-has_vm :
        (agent_id : api.AgentId) (stemcell_cid : String) (cloud_props : api.CloudProps)
        (networks : Networks api) (disks : List String) (vm_env : api.VmEnv) (h : History)
        {cid : String} {h1 h2 : History} {found : Bool}
        → (cpi_over api w u rounds turn settings stemcells config).create_vm agent_id stemcell_cid
            cloud_props networks disks vm_env h
          ≡ (returned (cid, none), h1)
        → is_name ("vm-" <> cid) ≡ true
        → (requests : List (Request api)) → all_leave api cid requests ≡ true
        → (cpi_over api w u rounds turn settings stemcells config).has_vm cid
            (after_all api (cpi_over api w u rounds turn settings stemcells config) requests h1)
          ≡ (returned (found, none), h2)
        → found ≡ true
    unfolding new
    create_vm-has_vm agent_id stemcell_cid cloud_props networks disks vm_env h {cid} e plain
          requests p k =
        let cpi = cpi_over api w u rounds turn settings stemcells config in
        has_vm-registered w u rounds turn host cid _ k
        ∙ registered-Grows w u host laws ("vm-" <> cid)
            (after_all-Grows api cpi cpi_over-CpiSpares ("vm-" <> cid) requests _
              (all_leave-named api cid requests plain p))
            (create_vm-registered agent_id stemcell_cid cloud_props networks disks vm_env h e plain)
