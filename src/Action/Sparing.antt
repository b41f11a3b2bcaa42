-- ===== src/Action/Sparing.antt =====
-- action/: what the CPI's methods delete on the host, whatever they return.
pub mod Laws
pub mod CreateVm
use bosh_esxi_cpi_release.Prelude.{
  ℕ, String, ◌<>◌, Bool, false, ◌≡◌, none, some, List, [], ◌∷◌, ◌++◌, refl, inl, inr, Option, ◌⊎◌,
}
use bosh_esxi_cpi_release.Prelude.Int.{ℤ}
use bosh_esxi_cpi_release.Go.World.{
  World, Error, Event, History, generate_uuid, debug_log, print_error, log_message, print_metadata,
  Returns,
}
use bosh_esxi_cpi_release.Go.Monad.{M, pure}
use bosh_esxi_cpi_release.Go.Avoids.{
  Avoids, avoids_bind, avoids_check, avoids_pure, avoids_panic, avoids_ask, avoids_told,
  avoids_passed, avoids_passed_error, avoids_handed, avoids_handed_error,
}
use bosh_esxi_cpi_release.Apiv1.{Apiv1}
use bosh_esxi_cpi_release.Vm.Props.{VmProps, zero_props}
use bosh_esxi_cpi_release.Vm.Settings.{AgentSettings}
use bosh_esxi_cpi_release.Stemcell.Client.{StemcellClient}
use bosh_esxi_cpi_release.Govc.Api.{GovcClient}
use bosh_esxi_cpi_release.Govc.Deletions.{deletes, deletes_other, deletes_any}
use bosh_esxi_cpi_release.Govc.Sparing.{ClientSpares}
use bosh_esxi_cpi_release.Action.Stemcells.{create_stemcell, delete_stemcell}
use bosh_esxi_cpi_release.Action.Disks.{
  create_disk, delete_disk, attach_disk, detach_disk, push_settings, persistent_hint,
}
use bosh_esxi_cpi_release.Action.Vms.{delete_vm, has_vm, info}
use bosh_esxi_cpi_release.Action.CreateVm.{Networks}
use bosh_esxi_cpi_release.Action.Factory.{Cpi, Factory, new, set_metadata}
use bosh_esxi_cpi_release.Action.Sparing.Laws.{SettingsSpares, StemcellSpares}
use bosh_esxi_cpi_release.Action.Sparing.CreateVm.{create_vm-Avoids}

-- What the methods of the CPI leave alone. The methods that delete leave alone what is not theirs.
pub record CpiSpares (api : Apiv1) (cpi : Cpi api) : Type 0 where
  pub create_stemcell : (image_path : String) → Avoids deletes (cpi.create_stemcell image_path)
  pub create_vm :
      (agent_id : api.AgentId) (stemcell_cid : String) (cloud_props : api.CloudProps)
      (networks : Networks api) (disks : List String) (vm_env : api.VmEnv)
      → Avoids deletes (cpi.create_vm agent_id stemcell_cid cloud_props networks disks vm_env)
  pub has_vm : (cid : String) → Avoids deletes (cpi.has_vm cid)
  pub create_disk : (size : ℤ) → Avoids deletes (cpi.create_disk size)
  pub attach_disk : (vm_cid disk_cid : String) → Avoids deletes (cpi.attach_disk vm_cid disk_cid)
  pub detach_disk : (vm_cid disk_cid : String) → Avoids deletes (cpi.detach_disk vm_cid disk_cid)
  pub info : Avoids deletes cpi.info
  pub set_vm_metadata : (cid metadata : String) → Avoids deletes (cpi.set_vm_metadata cid metadata)
  pub set_disk_metadata :
      (cid metadata : String) → Avoids deletes (cpi.set_disk_metadata cid metadata)
  pub calculate_vm_cloud_properties : Avoids deletes cpi.calculate_vm_cloud_properties
  pub reboot_vm : (cid : String) → Avoids deletes (cpi.reboot_vm cid)
  pub get_disks : (cid : String) → Avoids deletes (cpi.get_disks cid)
  pub has_disk : (cid : String) → Avoids deletes (cpi.has_disk cid)
  pub delete_vm : (cid : String) → Avoids (deletes_other ("vm-" <> cid)) (cpi.delete_vm cid)
  pub delete_stemcell :
      (cid : String) → Avoids (deletes_other ("cs-" <> cid)) (cpi.delete_stemcell cid)
  pub delete_disk :
      (cid : String) → Avoids (deletes_other (("disk-" <> cid) <> ".vmdk")) (cpi.delete_disk cid)

module _ (api : Apiv1) (client : GovcClient) (settings : AgentSettings api.AgentEnv)
    (spares : ClientSpares client) (settles : SettingsSpares settings) where
  push_settings-Avoids :
      (vm_id : String) (env : api.AgentEnv)
      → Avoids deletes (push_settings api client settings vm_id env)
  unfolding push_settings
  push_settings-Avoids vm_id env = avoids_handed (settles.generates env) λ path.
      avoids_handed (spares.updates vm_id path)
        λ r. avoids_bind settles.cleans λ u1. avoids_pure none

  pushed-Avoids :
      (vm_id : String) (change : api.AgentEnv → api.AgentEnv) (o : Error ⊎ api.AgentEnv)
      → Avoids deletes (elim o [
        | inl e ↦ pure (some e)
        | inr env ↦ push_settings api client settings vm_id (change env)
      ])
  pushed-Avoids vm_id change (inl e) = avoids_pure (some e)
  pushed-Avoids vm_id change (inr env) = push_settings-Avoids vm_id (change env)

  attach_disk-Avoids :
      (vm_cid disk_cid : String)
      → Avoids deletes (
          attach_disk api
            (record { govc_client = client; agent_settings = settings })
            vm_cid
            disk_cid)
  unfolding attach_disk
  attach_disk-Avoids vm_cid disk_cid =
      avoids_handed_error (spares.attaches ("vm-" <> vm_cid) ("disk-" <> disk_cid)) (
        avoids_bind settles.reads λ bytes.
          pushed-Avoids ("vm-" <> vm_cid)
            (api.attach_persistent_disk disk_cid (persistent_hint api)) (api.from_bytes bytes))

  detach_disk-Avoids :
      (vm_cid disk_cid : String)
      → Avoids deletes (
          detach_disk api
            (record { govc_client = client; agent_settings = settings })
            vm_cid
            disk_cid)
  unfolding detach_disk
  detach_disk-Avoids vm_cid disk_cid =
      avoids_handed_error (spares.detaches ("vm-" <> vm_cid) ("disk-" <> disk_cid)) (
        avoids_bind settles.reads λ bytes.
          pushed-Avoids ("vm-" <> vm_cid) (api.detach_persistent_disk disk_cid)
            (api.from_bytes bytes))

module _ (api : Apiv1) (w : World) (f : Factory api) (spares : ClientSpares f.govc_client)
    (settles : SettingsSpares f.agent_settings) (unpacks : StemcellSpares f.stemcell_client) where
  create_stemcell-Avoids :
      (image_path : String)
      → Avoids deletes (
          create_stemcell w
            (record { govc_client = f.govc_client; stemcell_client = f.stemcell_client })
            image_path)
  unfolding create_stemcell
  create_stemcell-Avoids image_path = avoids_bind (avoids_ask generate_uuid w.uuid refl) λ r.
      avoids_told (debug_log "cpi" ("ImagePath: " <> image_path)) refl (
        avoids_passed r.0 (unpacks.extracts image_path) λ path.
          avoids_passed r.0 (spares.imports path ("cs-" <> r.0))
            λ r'. avoids_bind unpacks.cleans λ u1. avoids_pure (r.0, none))

  delete_vm-Avoids :
      (cid : String)
      → Avoids
          (deletes_other ("vm-" <> cid))
          (delete_vm (record { govc_client = f.govc_client }) cid)
  unfolding delete_vm
  delete_vm-Avoids cid = avoids_bind (spares.destroys_vm ("vm-" <> cid)) λ r.
      avoids_check r.1 (λ e. avoids_told (print_error e) refl (avoids_pure (some e)))
        (avoids_pure none)

  delete_stemcell-Avoids :
      (cid : String)
      → Avoids
          (deletes_other ("cs-" <> cid))
          (delete_stemcell (record { govc_client = f.govc_client }) cid)
  unfolding delete_stemcell
  delete_stemcell-Avoids cid = avoids_bind (spares.destroys_vm ("cs-" <> cid)) λ r.
      avoids_check r.1
        (λ e.
          avoids_told (log_message "delete-stemcell" ("failed to delete stemcell. cid: " <> cid))
            refl (avoids_pure (some e)))
        (avoids_pure none)

  delete_disk-Avoids :
      (cid : String)
      → Avoids
          (deletes_other (("disk-" <> cid) <> ".vmdk"))
          (delete_disk (record { govc_client = f.govc_client }) cid)
  unfolding delete_disk
  delete_disk-Avoids cid = avoids_bind (spares.destroys_disk ("disk-" <> cid)) λ r.
      avoids_check r
        (λ e.
          avoids_told (log_message "cpi" ("deleting disk: " <> ("disk-" <> cid))) refl
            (avoids_pure (some e)))
        (avoids_pure none)

  has_vm-Avoids :
      (cid : String) → Avoids deletes (has_vm (record { govc_client = f.govc_client }) cid)
  unfolding has_vm
  has_vm-Avoids cid = avoids_passed false (spares.finds ("vm-" <> cid)) λ b. avoids_pure (b, none)

  create_disk-Avoids :
      (size : ℤ) → Avoids deletes (create_disk w (record { govc_client = f.govc_client }) size)
  unfolding create_disk
  create_disk-Avoids size =
      avoids_bind (avoids_ask generate_uuid w.uuid refl) λ r.
        avoids_passed_error r.0 (spares.creates ("disk-" <> r.0) size) (avoids_pure (r.0, none))

  metadata-Avoids : (metadata : String) → Avoids deletes (set_metadata metadata)
  unfolding set_metadata
  metadata-Avoids metadata = avoids_told (print_metadata metadata) refl (avoids_pure none)

  pub new-CpiSpares : CpiSpares api (new api w f)
  unfolding new
  new-CpiSpares = record {
    create_stemcell = create_stemcell-Avoids;
    create_vm = create_vm-Avoids api _ spares settles w;
    has_vm = has_vm-Avoids;
    create_disk = create_disk-Avoids;
    attach_disk = attach_disk-Avoids api f.govc_client f.agent_settings spares settles;
    detach_disk = detach_disk-Avoids api f.govc_client f.agent_settings spares settles;
    info = avoids_pure info;
    set_vm_metadata = λ cid. metadata-Avoids;
    set_disk_metadata = λ cid. metadata-Avoids;
    calculate_vm_cloud_properties = avoids_panic "CalculateVMCloudProperties";
    reboot_vm = λ cid. avoids_panic "RebootVM";
    get_disks = λ cid. avoids_panic "GetDisks";
    has_disk = λ cid. avoids_panic "HasDisk";
    delete_vm = delete_vm-Avoids;
    delete_stemcell = delete_stemcell-Avoids;
    delete_disk = delete_disk-Avoids;
  }
