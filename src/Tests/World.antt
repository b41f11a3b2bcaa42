-- ===== src/Tests/World.antt =====
-- A host with one machine, `vm-1`, whose folder lies in the datastore until it is removed.
use bosh_esxi_cpi_release.Prelude.{
  String, Bool, true, false, not, ◌&&◌, Option, none, some, List, [], ◌∷◌, ◌≡◌, refl, arith, str_eq,
  contains, str_eq_sym, ap, ◌↔◌, if◌then◌else◌, Bool-cases, inl, inr,
}
use bosh_esxi_cpi_release.Go.World.{cli, History, Returns, World}
use bosh_esxi_cpi_release.Govc.Answers.{
  VirtualMachine, unmarshal_vm_info, unmarshal_listings, path_found, unmarshal_devices, state_of,
  found_device,
}
use bosh_esxi_cpi_release.Govc.Answers.Search.{Listed, path_found_iff}
use bosh_esxi_cpi_release.Json.Read.{read}
use bosh_esxi_cpi_release.Govc.Commands.{
  copy_datastore_stemcell, register_datastore_vm, config_vm_hardware, add_network, upload,
  change_vm_resources, eject_cdrom, insert_cdrom, connect_cdrom, disconnect_cdrom, power_on_vm,
  answer_copy_question, stop_vm, unregister_vm, delete_datastore_object, run_disk_create,
  run_vm_disk_create, run_disk_attach, run_device_remove,
}
use bosh_esxi_cpi_release.Govc.Lookups.{vm_state, datastore_path_exists, get_vm_disk_name}
use bosh_esxi_cpi_release.Govc.Client.{
  import_ovf, clone_vm, set_vm_network_adapter, set_vm_resources, update_vm_iso, has_vm,
  create_ephemeral_disk, create_disk, attach_disk, detach_disk, destroy_disk, destroy_vm,
}
use bosh_esxi_cpi_release.Govc.Start.{start_vm}
use bosh_esxi_cpi_release.Govc.Api.{GovcClientImpl}
use bosh_esxi_cpi_release.Govc.Oracle.{world_client}
use bosh_esxi_cpi_release.Prelude.Decimal.{itoa}
use bosh_esxi_cpi_release.Govc.Host.{Host, is_empty, base_flags}

abbrev is_one : Option (List String) → Bool
is_one (some (n ∷ [])) = str_eq n "vm-1"
is_one _ = false

-- Whether `vm-1` is still registered, and whether its folder is still there.
abbrev alive : History → Bool
alive [] = true
alive (cli cmd flags args ∷ h) = if str_eq cmd "vm.destroy" && is_one args then false else alive h
alive (_ ∷ h) = alive h

abbrev on_disk : History → Bool
on_disk [] = true
on_disk (cli cmd flags args ∷ h) =
    if str_eq cmd "datastore.rm" && is_one args then false else on_disk h
on_disk (_ ∷ h) = on_disk h

abbrev info_text : Bool → String
info_text true =
    "{\"VirtualMachines\":[{\"Runtime\":{\"PowerState\":\"poweredOn\",\"Question\":null}}]}"
info_text false = "{\"VirtualMachines\":null}"

abbrev listing_text : Bool → String
listing_text true = "[{\"File\":[{\"Path\":\"vm-1\"}]}]"
listing_text false = "[{\"File\":[]}]"

abbrev reply : History → String → Option (List String) → String
reply h cmd args =
    if str_eq cmd "vm.info"
    then info_text (alive h && is_one args)
    else if str_eq cmd "datastore.ls"
    then listing_text (on_disk h)
    else "done"

abbrev pub one_vm : World
one_vm = record {
  run_cli = λ h cmd flags args. (reply h cmd args, none);
  has_file = λ h p. true;
  file_bytes = λ h p. ("", none);
  write_fails = λ h p b. none;
  new_temp_dir = λ h p. ("/tmp/agent-1", none);
  open_fails = λ h p. none;
  remove_fails = λ h p. none;
  decompress_fails = λ h p d. none;
  iso_fails = λ h p b l. none;
  random = λ h n. (0x1C ∷ 0xF0 ∷ [], none);
  uuid = λ h. ("1", none);
}

abbrev vms : Bool → List VirtualMachine
vms true = record { runtime = record { power_state = "poweredOn"; question = false } } ∷ []
vms false = []

abbrev files : Bool → List String
files true = "vm-1" ∷ []
files false = []

unmarshal_info_text : (b : Bool) → unmarshal_vm_info (info_text b) ≡ some (vms b)
unfolding unmarshal_vm_info read
unmarshal_info_text true = refl
unmarshal_info_text false = refl

unmarshal_listing_text : (b : Bool) → unmarshal_listings (listing_text b) ≡ some (files b ∷ [])
unfolding unmarshal_listings read
unmarshal_listing_text true = refl
unmarshal_listing_text false = refl

is_empty-vms : (b : Bool) → is_empty (vms b) ≡ not b
is_empty-vms true = refl
is_empty-vms false = refl

abbrev is_here : History → String → Bool
is_here h n = alive h && str_eq n "vm-1"

abbrev has_folder : History → String → Bool
has_folder h p = path_found p (files (on_disk h))

not_destroyed :
    (h : History) (n : String)
    → (if str_eq n "vm-1" then false else alive h) && str_eq n "vm-1" ≡ false
not_destroyed h n = ground arith

not_removed :
    (h : History) (p : String)
    → path_found p (files (if str_eq p "vm-1" then false else on_disk h)) ≡ false
unfolding path_found
not_removed h p = elim (Bool-cases (str_eq p "vm-1")) [
  | inl same ↦ rw same
  | inr other ↦ rw other (elim (Bool-cases (on_disk h)) [
    | inr gone ↦ rw gone
    | inl there ↦ rw (there, str_eq_sym "vm-1" p, other)
  ])
]

text_of_reply : (t : String) {s : String} → ◌≡◌ {A = Returns String} (t, none) (s, none) → t ≡ s
text_of_reply t e = ap (λ r. r.0) e

one_vm_info :
    (h : History) (n t : String)
    → one_vm.run_cli h "vm.info" (base_flags "u") (some (n ∷ [])) ≡ (t, none)
    → (vs : List VirtualMachine) × (unmarshal_vm_info t ≡ some vs)
      × (is_empty vs ≡ not (is_here h n))
one_vm_info h n t e = (
  vms (is_here h n),
  rw (← text_of_reply _ e) (unmarshal_info_text (is_here h n)),
  is_empty-vms (is_here h n),
)

one_vm_listing :
    (h : History) (t : String)
    → one_vm.run_cli h "datastore.ls" (base_flags "u") none ≡ (t, none)
    → (fs : List String) × (rest : List (List String)) × (unmarshal_listings t ≡ some (fs ∷ rest))
      × ((p : String) → Listed p fs ↔ (has_folder h p ≡ true))
one_vm_listing h t e = (
  files (on_disk h),
  [],
  rw (← text_of_reply _ e) (unmarshal_listing_text (on_disk h)),
  λ p. ((path_found_iff p _).1, (path_found_iff p _).0),
)

pub one_vm_host : Host one_vm "u"
one_vm_host = record {
  registered = is_here;
  stored = has_folder;
  info_answer = one_vm_info;
  listing_answer = one_vm_listing;
  destroyed = λ h n _. not_destroyed h n;
  removed = λ h p _. not_removed h p;
  registered-info = λ h n m. refl;
  registered-listing = λ h n. refl;
  stored-info = λ h p m. refl;
  stored-listing = λ h p. refl;
  registered-removing = λ h n p gone. gone;
}

-- The client over a world. To unfold it is to unfold the client's methods.
unfoldable pub client : World → GovcClientImpl
unfolding read vm_state datastore_path_exists get_vm_disk_name unmarshal_vm_info unmarshal_listings
    unmarshal_devices state_of path_found found_device contains copy_datastore_stemcell
    register_datastore_vm config_vm_hardware add_network upload change_vm_resources eject_cdrom
    insert_cdrom connect_cdrom disconnect_cdrom power_on_vm answer_copy_question stop_vm
    unregister_vm delete_datastore_object run_disk_create run_vm_disk_create run_disk_attach
    run_device_remove itoa import_ovf clone_vm set_vm_network_adapter set_vm_resources update_vm_iso
    has_vm create_ephemeral_disk create_disk attach_disk detach_disk destroy_disk destroy_vm
    start_vm
client w = world_client w "u"
