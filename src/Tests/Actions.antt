-- ===== src/Tests/Actions.antt =====
-- The actions of the CPI on a host with one machine that has one disk.
use bosh_esxi_cpi_release.Prelude.{
  String, true, none, List, [], ◌∷◌, ◌≡◌, refl, str_eq, if◌then◌else◌,
}
use bosh_esxi_cpi_release.Go.World.{World, History, file_exists, temp_dir}
use bosh_esxi_cpi_release.Go.Monad.{returned}
use bosh_esxi_cpi_release.Govc.Client.{clone_vm, update_vm_iso, new_client, detach_disk}
use bosh_esxi_cpi_release.Govc.Oracle.{world_client}
use bosh_esxi_cpi_release.Govc.Scripts.{
  Follows, clone_lines, iso_lines, clone_vm-Follows, update_vm_iso-Follows,
}
use bosh_esxi_cpi_release.Govc.Detaching.{RemovedOne, detach_disk-Removed}
use bosh_esxi_cpi_release.Stemcell.Client.{extract_ovf, cleanup, new_client as new_stemcells}
use bosh_esxi_cpi_release.Stemcell.Client.Extraction.{
  fresh_dir, unpacked, removed, extract_ovf-found,
}
use bosh_esxi_cpi_release.Vm.Settings.{
  AgentSettings, join, agent_settings, generate_agent_env_iso, agent_env_bytes_from_file,
  cleanup as cleanup_settings,
}
use bosh_esxi_cpi_release.Action.Stemcells.{create_stemcell}
use bosh_esxi_cpi_release.Action.Stemcells.Imported.{
  Imported, over_world, create_stemcell-Imported, create_stemcell-removed,
}
use bosh_esxi_cpi_release.Action.Disks.{
  AttachDiskMethod, DetachDiskMethod, persistent_hint, attach_disk as attach, detach_disk as detach,
}
use bosh_esxi_cpi_release.Action.Disks.Pushed.{Pushed, attach_disk-Pushed, detach_disk-Pushed}
use bosh_esxi_cpi_release.Tests.Api.{small_api}
use bosh_esxi_cpi_release.Tests.World.{one_vm, client}

abbrev imported_at : History
imported_at = (create_stemcell one_vm (over_world one_vm "u" 3 1) "/image" []).1

create_stemcell-Imported_example :
    ("1" ≡ (one_vm.uuid []).0) × Imported (over_world one_vm "u" 3 1) "/image" "1" [] imported_at
unfolding client create_stemcell extract_ovf cleanup
create_stemcell-Imported_example =
    create_stemcell-Imported one_vm (over_world one_vm "u" 3 1) "/image" [] refl

create_stemcell-removed_example : removed "/tmp/agent-1" imported_at ≡ removed "/tmp/agent-1" []
unfolding client create_stemcell extract_ovf cleanup
create_stemcell-removed_example =
    create_stemcell-removed one_vm "u" 3 1 "/image" "/tmp/agent-1" [] refl refl

abbrev image_ovf : String
image_ovf = "/tmp/agent-1/image.ovf"

extract_ovf-found_example :
    (image_ovf ≡ join (fresh_dir one_vm new_stemcells "/image" []) "image.ovf")
    × (file_exists image_ovf ∷ unpacked one_vm new_stemcells "/image" []
        ≡ file_exists image_ovf ∷ unpacked one_vm new_stemcells "/image" [])
    × (true ≡ true)
    × (one_vm.decompress_fails
          (temp_dir "stemcell-" ∷ file_exists "/image" ∷ [])
          "/image"
          "/tmp/agent-1"
        ≡ none)
    × (one_vm.has_file (unpacked one_vm new_stemcells "/image" []) image_ovf ≡ true)
unfolding extract_ovf
extract_ovf-found_example = extract_ovf-found one_vm new_stemcells "/image" [] refl

clone_vm-Follows_example :
    Follows one_vm
      (clone_vm (world_client one_vm "u") "cs-7" "vm-2")
      (clone_lines one_vm "u" "cs-7" "vm-2")
      []
clone_vm-Follows_example = clone_vm-Follows one_vm "u" "cs-7" "vm-2" []

update_vm_iso-Follows_example :
    Follows one_vm
      (update_vm_iso (world_client one_vm "u") "vm-1" "/tmp/agent-1/env.iso")
      (iso_lines one_vm "u" "vm-1" "/tmp/agent-1/env.iso")
      []
update_vm_iso-Follows_example = update_vm_iso-Follows one_vm "u" "vm-1" "/tmp/agent-1/env.iso" []

abbrev devices_text : String
devices_text =
    "{\"Devices\":[{\"Name\":\"disk-1000-1\",\"Backing\":{\"Parent\":{\"FileName\":\"[ds] disk-7.vmdk\"}}}]}"

abbrev with_disk : World
with_disk = record one_vm {
  run_cli = λ h cmd flags args. (if str_eq cmd "device.info" then devices_text else "done", none);
}

abbrev detached_at : History
detached_at = (detach_disk (client with_disk) "vm-1" "disk-7" []).1

detach_disk-Removed_example : RemovedOne with_disk "u" "vm-1" "disk-7" [] detached_at
unfolding client
detach_disk-Removed_example = detach_disk-Removed with_disk "u" "vm-1" "disk-7" [] refl

abbrev settings : AgentSettings (List String)
settings = agent_settings small_api with_disk (record { parent_temp_dir = "/tmp/agent-1" })

abbrev attaching : AttachDiskMethod small_api
attaching = record { govc_client = new_client (client with_disk) 3 1; agent_settings = settings }

abbrev detaching : DetachDiskMethod small_api
detaching = record { govc_client = new_client (client with_disk) 3 1; agent_settings = settings }

attach_disk-Pushed_example :
    (attached : History) × (attaching.govc_client.attach_disk "vm-1" "disk-7" []
      ≡ (returned none, attached))
    × Pushed small_api attaching.govc_client settings "vm-1"
        (small_api.attach_persistent_disk "7" (persistent_hint small_api))
        attached
        (attach small_api attaching "1" "7" []).1
unfolding client attach generate_agent_env_iso agent_env_bytes_from_file cleanup_settings
attach_disk-Pushed_example = attach_disk-Pushed small_api "1" "7" [] attaching refl

detach_disk-Pushed_example :
    (detached : History) × (detaching.govc_client.detach_disk "vm-1" "disk-7" []
      ≡ (returned none, detached))
    × Pushed small_api detaching.govc_client settings "vm-1"
        (small_api.detach_persistent_disk "7")
        detached
        (detach small_api detaching "1" "7" []).1
unfolding client detach generate_agent_env_iso agent_env_bytes_from_file cleanup_settings
detach_disk-Pushed_example = detach_disk-Pushed small_api "1" "7" [] detaching refl
