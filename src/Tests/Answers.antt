-- ===== src/Tests/Answers.antt =====
-- Answers of govc, as text and as values.
use bosh_esxi_cpi_release.Prelude.{
  String, true, none, some, List, [], ◌∷◌, ◌≡◌, ◌↔◌, refl, str_eq, contains, if◌then◌else◌,
}
use bosh_esxi_cpi_release.Go.World.{World}
use bosh_esxi_cpi_release.Go.Monad.{returned}
use bosh_esxi_cpi_release.Json.Print.{print}
use bosh_esxi_cpi_release.Govc.Answers.{
  VirtualMachine, Device, unmarshal_vm_info, unmarshal_listings, unmarshal_devices, state_of,
  path_found, found_device,
}
use bosh_esxi_cpi_release.Govc.Answers.RoundTrip.{
  encode_vm_info, encode_listings, encode_devices, unmarshal-print,
}
use bosh_esxi_cpi_release.Govc.Answers.Search.{Listed, Outcome}
use bosh_esxi_cpi_release.Govc.Host.{info, listing}
use bosh_esxi_cpi_release.Govc.Detaching.{device_info}
use bosh_esxi_cpi_release.Govc.Oracle.{world_client}
use bosh_esxi_cpi_release.Govc.Lookups.{vm_state, datastore_path_exists, get_vm_disk_name}
use bosh_esxi_cpi_release.Govc.Lookups.Printed.{IsStateOf, Prints, lookups-Prints}
use bosh_esxi_cpi_release.Tests.World.{one_vm}

abbrev machines : List VirtualMachine
machines = record { runtime = record { power_state = "poweredOn"; question = true } } ∷ []

abbrev devices : List Device
devices =
    record { name = "disk-1000-0"; file_name = "[ds] vm-1.vmdk" }
    ∷ record { name = "disk-1000-1"; file_name = "[ds] disk-7.vmdk" }
    ∷ []

abbrev listings : List (List String)
listings = ("vm-1" ∷ "disk-7.vmdk" ∷ []) ∷ []

abbrev answering : World
answering = record one_vm {
  run_cli = λ h cmd flags args.
      let text =
        if str_eq cmd "vm.info"
        then print (encode_vm_info machines) ""
        else if str_eq cmd "datastore.ls"
        then print (encode_listings listings) ""
        else print (encode_devices devices) "" in
      (text, none);
}

unmarshal-print_example :
    (unmarshal_vm_info (print (encode_vm_info machines) "") ≡ some machines)
    × (unmarshal_listings (print (encode_listings listings) "") ≡ some listings)
    × (unmarshal_devices (print (encode_devices devices) "") ≡ some devices)
unfolding print
unmarshal-print_example = unmarshal-print machines listings devices refl refl refl

example-Prints : Prints answering "u" [] "vm-1" machines ("vm-1" ∷ "disk-7.vmdk" ∷ []) [] devices
example-Prints = record {
  prints_info = refl;
  prints_listing = refl;
  prints_devices = refl;
  plain_info = refl;
  plain_listing = refl;
  plain_devices = refl;
}

lookups-Prints_example :
    (vm_state (world_client answering "u") "vm-1" []
      ≡ (returned (state_of machines, none), info "u" "vm-1" ∷ []))
    × IsStateOf machines (state_of machines)
    × (datastore_path_exists (world_client answering "u") "disk-7.vmdk" [] ≡ (
      returned (path_found "disk-7.vmdk" ("vm-1" ∷ "disk-7.vmdk" ∷ []), none),
      listing "u" ∷ [],
    ))
    × (get_vm_disk_name (world_client answering "u") "vm-1" "disk-7" [] ≡ (
      returned (found_device "disk-7" "" devices, none),
      device_info answering "u" "vm-1" "disk-7" ∷ [],
    ))
    × (path_found "disk-7.vmdk" ("vm-1" ∷ "disk-7.vmdk" ∷ []) ≡ true
        ↔ Listed "disk-7.vmdk" ("vm-1" ∷ "disk-7.vmdk" ∷ []))
    × Outcome "disk-7" "" devices
lookups-Prints_example =
    lookups-Prints answering "u" [] "vm-1" "disk-7.vmdk" "disk-7" machines
      ("vm-1" ∷ "disk-7.vmdk" ∷ []) [] devices example-Prints

-- The disk is the second device.
second_device : found_device "disk-7" "" devices ≡ "disk-1000-1"
unfolding found_device contains
second_device = refl
