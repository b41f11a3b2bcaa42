-- ===== src/Govc/Detaching.antt =====
-- govc/govc_client.go: which device `DetachDisk` removes.
use bosh_esxi_cpi_release.Prelude.{
  String, Option, none, some, List, [], ◌∷◌, ◌≡◌, refl, arith, ◌⊎◌, inl, inr,
}
use bosh_esxi_cpi_release.Go.World.{World, Event, Flags, cli, History, Returns}
use bosh_esxi_cpi_release.Go.Monad.{returned}
use bosh_esxi_cpi_release.Govc.Oracle.{world_client}
use bosh_esxi_cpi_release.Govc.Answers.{Device, unmarshal_devices, found_device}
use bosh_esxi_cpi_release.Govc.Answers.Search.{NoneHas, LastHas, Outcome, found_device_last}
use bosh_esxi_cpi_release.Govc.Commands.{run_device_remove}
use bosh_esxi_cpi_release.Govc.Lookups.{get_vm_disk_name}
use bosh_esxi_cpi_release.Govc.Client.{detach_disk}

module _ (w : World) (u vm_name disk_id : String) where
  abbrev pub info_flags : Flags
  info_flags = ("json", "true") ∷ ("vm", vm_name) ∷ ("u", u) ∷ ("k", "true") ∷ []

  abbrev pub device_info : Event
  device_info = cli "device.info" info_flags none

  abbrev pub device_remove : String → Event
  device_remove name =
      cli "device.remove" (("vm", vm_name) ∷ ("keep", "true") ∷ ("u", u) ∷ ("k", "true") ∷ [])
        (some (name ∷ []))

  -- The command removed the device of the last file that has the disk's name in its own, or a device
  -- without a name if there is none.
  abbrev pub Removed : List Device → History → History → Type 0
  Removed ds h h' =
      ((d : Device) × LastHas disk_id ds d × (h' ≡ device_remove d.name ∷ device_info ∷ h))
      ⊎ (NoneHas disk_id ds × (h' ≡ device_remove "" ∷ device_info ∷ h))

  -- The same, of the devices that the VM's answer named.
  abbrev pub RemovedOne : History → History → Type 0
  RemovedOne h h' =
      (t : String) × (ds : List Device) × (w.run_cli h "device.info" info_flags none ≡ (t, none))
      × (unmarshal_devices t ≡ some ds)
      × Removed ds h h'

  chosen :
      (ds : List Device) (h h' : History)
      → Outcome disk_id "" ds
      → h' ≡ device_remove (found_device disk_id "" ds) ∷ device_info ∷ h
      → Removed ds h h'
  chosen ds h h' (inl (n, q)) e = inr (n, rw q at e)
  chosen ds h h' (inr (d, l, q)) e = inl (d, l, rw q at e)

  -- A `DetachDisk` that returns without an error has asked for the VM's devices and been answered,
  -- and has removed the last of them whose file's name contains the disk's; if no file's name does,
  -- it has removed a device with the empty name.
  pub detach_disk-Removed :
      (h : History) {h' : History}
      → detach_disk (world_client w u) vm_name disk_id h ≡ (returned none, h')
      → RemovedOne h h'
  unfolding detach_disk get_vm_disk_name run_device_remove
  detach_disk-Removed h {h'} e = answered _ refl
    where
      decoded :
          (t : String)
          → w.run_cli h "device.info" info_flags none ≡ (t, none)
          → (o : Option (List Device)) → unmarshal_devices t ≡ o
          → RemovedOne h h'
      decoded t q none p = ground (arith, q, p)
      decoded t q (some ds) p =
          (t, ds, q, p, chosen ds h h' (found_device_last disk_id "" ds) (ground (arith, q, p)))

      answered :
          (x : Returns String) → w.run_cli h "device.info" info_flags none ≡ x → RemovedOne h h'
      answered (t, some d) q = ground (arith, q)
      answered (t, none) q = decoded t q _ refl
