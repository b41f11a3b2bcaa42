-- ===== src/Action/Requests/Kept.antt =====
-- action/: what the registration of a VM or of a stemcell on the host depends on.
use bosh_esxi_cpi_release.Prelude.{
  String, ◌<>◌, true, false, ◌≡◌, refl, arith, List, [], ◌∷◌, str_eq, str_eq-append_left,
  str_eq-heads,
}
use text.Mathlib.TextLemmas.{append_assoc}
use bosh_esxi_cpi_release.Go.World.{World, History}
use bosh_esxi_cpi_release.Go.Avoids.{Grows, here, Grows-keeps, Grows-trans}
use bosh_esxi_cpi_release.Apiv1.{Apiv1}
use bosh_esxi_cpi_release.Govc.Deletions.{deletes_named, is_name, spares_chosen, spares_other}
use bosh_esxi_cpi_release.Govc.Host.{Host}
use bosh_esxi_cpi_release.Govc.Registering.{Registering}
use bosh_esxi_cpi_release.Action.Factory.{Cpi}
use bosh_esxi_cpi_release.Action.Sparing.{CpiSpares}
use bosh_esxi_cpi_release.Action.Requests.{
  Request, create_stemcell, delete_stemcell, create_vm, delete_vm, has_vm, create_disk, attach_disk,
  detach_disk, delete_disk, info, set_vm_metadata, set_disk_metadata, calculate_vm_cloud_properties,
  reboot_vm, get_disks, has_disk, after, after_all, leaves, leaves_stemcell, leaves_named,
  all_leave, all_leave_stemcell, all_leave_named,
}

-- The names that the CPI gives to VMs, stemcells and disks differ.
disk_is_no_vm :
    (disk_cid cid : String) → str_eq (("disk-" <> disk_cid) <> ".vmdk") ("vm-" <> cid) ≡ false
disk_is_no_vm disk_cid cid =
    rw (append_assoc "disk-" disk_cid ".vmdk")
      (str_eq-heads "d" "v" "isk-" "m-" (disk_cid <> ".vmdk") cid (λ e. ground (arith, e)))

disk_is_no_stemcell :
    (disk_cid cid : String) → str_eq (("disk-" <> disk_cid) <> ".vmdk") ("cs-" <> cid) ≡ false
disk_is_no_stemcell disk_cid cid =
    rw (append_assoc "disk-" disk_cid ".vmdk")
      (str_eq-heads "d" "c" "isk-" "s-" (disk_cid <> ".vmdk") cid (λ e. ground (arith, e)))

stemcell_is_no_vm :
    (stemcell_cid cid : String) → str_eq ("cs-" <> stemcell_cid) ("vm-" <> cid) ≡ false
stemcell_is_no_vm stemcell_cid cid =
    str_eq-heads "c" "v" "s-" "m-" stemcell_cid cid (λ e. ground (arith, e))

vm_is_no_stemcell : (vm_cid cid : String) → str_eq ("vm-" <> vm_cid) ("cs-" <> cid) ≡ false
vm_is_no_stemcell vm_cid cid = str_eq-heads "v" "c" "m-" "s-" vm_cid cid (λ e. ground (arith, e))

module _ (api : Apiv1) (cid : String) where
  leaves_vm :
      (r : Request api)
      → is_name ("vm-" <> cid) ≡ true
      → leaves api cid r ≡ true
      → leaves_named api ("vm-" <> cid) r ≡ true
  leaves_vm (delete_vm other) plain p = ground (arith, p, plain, str_eq-append_left "vm-" other cid)
  leaves_vm (delete_stemcell other) plain p = rw (p, plain, stemcell_is_no_vm other cid) refl
  leaves_vm (delete_disk other) plain p = rw (p, plain, disk_is_no_vm other cid) refl
  leaves_vm _ plain p = ground (arith, p)

  leaves_cs :
      (r : Request api)
      → is_name ("cs-" <> cid) ≡ true
      → leaves_stemcell api cid r ≡ true
      → leaves_named api ("cs-" <> cid) r ≡ true
  leaves_cs (delete_stemcell other) plain p =
      ground (arith, p, plain, str_eq-append_left "cs-" other cid)
  leaves_cs (delete_vm other) plain p = rw (p, plain, vm_is_no_stemcell other cid) refl
  leaves_cs (delete_disk other) plain p = rw (p, plain, disk_is_no_stemcell other cid) refl
  leaves_cs _ plain p = ground (arith, p)

  -- Requests that leave the VM leave what has its name, and so for the stemcell.
  pub all_leave-named :
      (rs : List (Request api))
      → is_name ("vm-" <> cid) ≡ true
      → all_leave api cid rs ≡ true
      → all_leave_named api ("vm-" <> cid) rs ≡ true
  all_leave-named [] plain p = refl
  all_leave-named (r ∷ rs) plain p = ground (
    arith,
    p,
    leaves_vm r plain (ground (arith, p)),
    all_leave-named rs plain (ground (arith, p)),
  )

  pub all_leave_stemcell-named :
      (rs : List (Request api))
      → is_name ("cs-" <> cid) ≡ true
      → all_leave_stemcell api cid rs ≡ true
      → all_leave_named api ("cs-" <> cid) rs ≡ true
  all_leave_stemcell-named [] plain p = refl
  all_leave_stemcell-named (r ∷ rs) plain p = ground (
    arith,
    p,
    leaves_cs r plain (ground (arith, p)),
    all_leave_stemcell-named rs plain (ground (arith, p)),
  )

module _ (api : Apiv1) (cpi : Cpi api) (spares : CpiSpares api cpi) (n : String) where
  after-Grows :
      (r : Request api) (h : History)
      → leaves_named api n r ≡ true
      → Grows (deletes_named n) h (after api cpi r h)
  unfolding after
  after-Grows (create_stemcell image_path) h p =
      (spares_chosen _ (spares.create_stemcell image_path)).grows h
  after-Grows (create_vm agent_id stemcell_cid cloud_props networks disks vm_env) h p =
      (spares_chosen _
          (spares.create_vm agent_id stemcell_cid cloud_props networks disks vm_env)).grows
        h
  after-Grows (has_vm other) h p = (spares_chosen _ (spares.has_vm other)).grows h
  after-Grows (create_disk size) h p = (spares_chosen _ (spares.create_disk size)).grows h
  after-Grows (attach_disk vm_cid disk_cid) h p =
      (spares_chosen _ (spares.attach_disk vm_cid disk_cid)).grows h
  after-Grows (detach_disk vm_cid disk_cid) h p =
      (spares_chosen _ (spares.detach_disk vm_cid disk_cid)).grows h
  after-Grows info h p = (spares_chosen _ spares.info).grows h
  after-Grows (set_vm_metadata other metadata) h p =
      (spares_chosen _ (spares.set_vm_metadata other metadata)).grows h
  after-Grows (set_disk_metadata other metadata) h p =
      (spares_chosen _ (spares.set_disk_metadata other metadata)).grows h
  after-Grows calculate_vm_cloud_properties h p =
      (spares_chosen _ spares.calculate_vm_cloud_properties).grows h
  after-Grows (reboot_vm other) h p = (spares_chosen _ (spares.reboot_vm other)).grows h
  after-Grows (get_disks other) h p = (spares_chosen _ (spares.get_disks other)).grows h
  after-Grows (has_disk other) h p = (spares_chosen _ (spares.has_disk other)).grows h
  after-Grows (delete_vm other) h p =
      (spares_other _ ("vm-" <> other) (rw p refl) (spares.delete_vm other)).grows h
  after-Grows (delete_stemcell other) h p =
      (spares_other _ ("cs-" <> other) (rw p refl) (spares.delete_stemcell other)).grows h
  after-Grows (delete_disk other) h p =
      (spares_other _ (("disk-" <> other) <> ".vmdk") (rw p refl) (spares.delete_disk other)).grows
        h

  pub after_all-Grows :
      (rs : List (Request api)) (h : History)
      → all_leave_named api n rs ≡ true
      → Grows (deletes_named n) h (after_all api cpi rs h)
  unfolding after_all
  after_all-Grows [] h p = here
  after_all-Grows (r ∷ rs) h p =
      Grows-trans (after-Grows r h (ground (arith, p)))
        (after_all-Grows rs (after api cpi r h) (ground (arith, p)))

-- A machine stays registered where nothing of its name is deleted.
pub registered-Grows :
    (w : World) (u : String) (host : Host w u)
    → Registering w u host
    → (n : String) {h h' : History} → Grows (deletes_named n) h h'
    → host.registered h n ≡ true
    → host.registered h' n ≡ true
registered-Grows w u host laws n g p =
    Grows-keeps (λ k. host.registered k n ≡ true) (λ e k. laws.keeps k n e) g p
