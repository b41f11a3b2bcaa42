-- ===== src/Action/Requests.antt =====
-- The director's requests to the CPI of action/factory.go, one after another.
pub mod Kept
use bosh_esxi_cpi_release.Prelude.{ℕ, String, ◌<>◌, Bool, true, not, List, [], ◌∷◌, str_eq, ◌&&◌}
use bosh_esxi_cpi_release.Prelude.Int.{ℤ}
use bosh_esxi_cpi_release.Go.World.{World, History}
use bosh_esxi_cpi_release.Apiv1.{Apiv1}
use bosh_esxi_cpi_release.Config.Load.{Config}
use bosh_esxi_cpi_release.Stemcell.Client.{StemcellClientImpl, stemcell_client}
use bosh_esxi_cpi_release.Vm.Settings.{AgentSettingsImpl, agent_settings}
use bosh_esxi_cpi_release.Govc.Deletions.{is_name, is_apart}
use bosh_esxi_cpi_release.Action.CreateVm.{Networks}
use bosh_esxi_cpi_release.Action.Factory.{Cpi, new}
use bosh_esxi_cpi_release.Action.Gone.{over_world}

module _ (api : Apiv1) where
  -- A method of the CPI with its arguments.
  pub data Request : Type 0 where
    create_stemcell : String → Request
    delete_stemcell : String → Request
    create_vm :
        api.AgentId → String → api.CloudProps → Networks api → List String → api.VmEnv → Request
    delete_vm : String → Request
    has_vm : String → Request
    create_disk : ℤ → Request
    attach_disk : String → String → Request
    detach_disk : String → String → Request
    delete_disk : String → Request
    info : Request
    set_vm_metadata : String → String → Request
    set_disk_metadata : String → String → Request
    calculate_vm_cloud_properties : Request
    reboot_vm : String → Request
    get_disks : String → Request
    has_disk : String → Request

  -- The history once the request has ended, whatever came of it.
  unfoldable pub after : Cpi api → Request → History → History
  after cpi (create_stemcell image_path) h = (cpi.create_stemcell image_path h).1
  after cpi (delete_stemcell cid) h = (cpi.delete_stemcell cid h).1
  after cpi (create_vm agent_id stemcell_cid cloud_props networks disks vm_env) h =
      (cpi.create_vm agent_id stemcell_cid cloud_props networks disks vm_env h).1
  after cpi (delete_vm cid) h = (cpi.delete_vm cid h).1
  after cpi (has_vm cid) h = (cpi.has_vm cid h).1
  after cpi (create_disk size) h = (cpi.create_disk size h).1
  after cpi (attach_disk vm_cid disk_cid) h = (cpi.attach_disk vm_cid disk_cid h).1
  after cpi (detach_disk vm_cid disk_cid) h = (cpi.detach_disk vm_cid disk_cid h).1
  after cpi (delete_disk cid) h = (cpi.delete_disk cid h).1
  after cpi info h = (cpi.info h).1
  after cpi (set_vm_metadata cid metadata) h = (cpi.set_vm_metadata cid metadata h).1
  after cpi (set_disk_metadata cid metadata) h = (cpi.set_disk_metadata cid metadata h).1
  after cpi calculate_vm_cloud_properties h = (cpi.calculate_vm_cloud_properties h).1
  after cpi (reboot_vm cid) h = (cpi.reboot_vm cid h).1
  after cpi (get_disks cid) h = (cpi.get_disks cid h).1
  after cpi (has_disk cid) h = (cpi.has_disk cid h).1

  unfoldable pub after_all : Cpi api → List Request → History → History
  unfolding after
  after_all cpi [] h = h
  after_all cpi (r ∷ rs) h = after_all cpi rs (after cpi r h)

  -- No request for the deletion of the VM; and the names made of the CIDs that are deleted are each
  -- read by govc as one name, and not, say, as the pattern `vm-*`.
  abbrev pub leaves : String → Request → Bool
  leaves cid (delete_vm other) = is_name ("vm-" <> other) && not (str_eq other cid)
  leaves cid (delete_stemcell other) = is_name ("cs-" <> other)
  leaves cid (delete_disk other) = is_name (("disk-" <> other) <> ".vmdk")
  leaves cid _ = true

  abbrev pub all_leave : String → List Request → Bool
  all_leave cid [] = true
  all_leave cid (r ∷ rs) = leaves cid r && all_leave cid rs

  -- The same for the stemcell.
  abbrev pub leaves_stemcell : String → Request → Bool
  leaves_stemcell cid (delete_vm other) = is_name ("vm-" <> other)
  leaves_stemcell cid (delete_stemcell other) = is_name ("cs-" <> other) && not (str_eq other cid)
  leaves_stemcell cid (delete_disk other) = is_name (("disk-" <> other) <> ".vmdk")
  leaves_stemcell cid _ = true

  abbrev pub all_leave_stemcell : String → List Request → Bool
  all_leave_stemcell cid [] = true
  all_leave_stemcell cid (r ∷ rs) = leaves_stemcell cid r && all_leave_stemcell cid rs

  -- No request for the deletion of what the host may call `n`.
  abbrev pub leaves_named : String → Request → Bool
  leaves_named n (delete_vm cid) = is_apart ("vm-" <> cid) n
  leaves_named n (delete_stemcell cid) = is_apart ("cs-" <> cid) n
  leaves_named n (delete_disk cid) = is_apart (("disk-" <> cid) <> ".vmdk") n
  leaves_named n _ = true

  abbrev pub all_leave_named : String → List Request → Bool
  all_leave_named n [] = true
  all_leave_named n (r ∷ rs) = leaves_named n r && all_leave_named n rs

  -- The CPI over the world's commands and its file system.
  abbrev pub cpi_over :
      World
      → String
      → ℕ
      → ℕ
      → AgentSettingsImpl
      → StemcellClientImpl
      → Config api.AgentOptions
      → Cpi api
  cpi_over w u rounds turn settings stemcells config = new api w (record {
    govc_client = over_world w u rounds turn;
    stemcell_client = stemcell_client w stemcells;
    agent_settings = agent_settings api w settings;
    config = config;
  })
