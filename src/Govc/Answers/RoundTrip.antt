-- ===== src/Govc/Answers/RoundTrip.antt =====
-- govc/govc_client.go: the answers of govc, written as JSON and decoded.
use bosh_esxi_cpi_release.Prelude.{String, true, some, List, [], ◌≡◌, arith, if◌then◌else◌}
use bosh_esxi_cpi_release.Json.Syntax.{Json, null, bool, str, array, object, end, field}
use bosh_esxi_cpi_release.Json.Encode.{one_field, encode_items, decode_items-encode_items}
use bosh_esxi_cpi_release.Json.Decode.{Decoder, decode_slice}
use bosh_esxi_cpi_release.Json.Print.{print, is_plain}
use bosh_esxi_cpi_release.Json.Read.Printed.{read-print}
use bosh_esxi_cpi_release.Govc.Answers.{
  VirtualMachine, decode_virtual_machine, decode_vm_info, decode_listing, decode_file, Device,
  unmarshal, unmarshal_vm_info, unmarshal_listings, unmarshal_devices, decode_device,
  decode_devices, zero_virtual_machine, zero_device,
}

-- `VirtualMachines` with their `Runtime`; the members that the client does not read are left out.
abbrev pub encode_virtual_machine : VirtualMachine → Json
encode_virtual_machine v = one_field "Runtime" (
    object (
      field "PowerState" (str v.runtime.power_state)
        (field "Question" (if v.runtime.question then bool true else null) end)))

abbrev pub encode_vm_info : List VirtualMachine → Json
encode_vm_info vs = one_field "VirtualMachines" (array (encode_items encode_virtual_machine vs))

abbrev pub encode_file : String → Json
encode_file f = one_field "Path" (str f)

abbrev pub encode_listing : List String → Json
encode_listing fs = one_field "File" (array (encode_items encode_file fs))

abbrev pub encode_listings : List (List String) → Json
encode_listings ls = array (encode_items encode_listing ls)

abbrev pub encode_device : Device → Json
encode_device d = object (
    field "Name" (str d.name)
      (field "Backing" (one_field "Parent" (one_field "FileName" (str d.file_name))) end))

abbrev pub encode_devices : List Device → Json
encode_devices ds = one_field "Devices" (array (encode_items encode_device ds))

decode_vm-encode_vm :
    (v : VirtualMachine)
    → decode_virtual_machine (encode_virtual_machine v) zero_virtual_machine ≡ some v
unfolding decode_virtual_machine
decode_vm-encode_vm v = ground arith

vm_info_lem : (vs : List VirtualMachine) → decode_vm_info (encode_vm_info vs) [] ≡ some vs
unfolding decode_vm_info
vm_info_lem vs = ground (
  arith,
  decode_items-encode_items decode_virtual_machine zero_virtual_machine encode_virtual_machine
      decode_vm-encode_vm vs,
)

file_lem : (f : String) → decode_file (encode_file f) "" ≡ some f
unfolding decode_file
file_lem f = ground arith

listing_lem : (fs : List String) → decode_listing (encode_listing fs) [] ≡ some fs
unfolding decode_listing
listing_lem fs = ground (arith, decode_items-encode_items decode_file "" encode_file file_lem fs)

device_lem : (d : Device) → decode_device (encode_device d) zero_device ≡ some d
unfolding decode_device
device_lem d = ground arith

devices_lem : (ds : List Device) → decode_devices (encode_devices ds) [] ≡ some ds
unfolding decode_devices
devices_lem ds =
    ground (arith, decode_items-encode_items decode_device zero_device encode_device device_lem ds)

listings_lem :
    (ls : List (List String)) → decode_slice decode_listing [] (encode_listings ls) [] ≡ some ls
unfolding decode_slice
listings_lem ls = decode_items-encode_items decode_listing [] encode_listing listing_lem ls

-- The JSON that spells any virtual machines, datastore listings and devices is decoded to just these:
-- the power states and whether a question is pending, the paths, and the names with the files
-- behind them.
pub decode-encode :
    (vs : List VirtualMachine) (ls : List (List String)) (ds : List Device)
    → (decode_vm_info (encode_vm_info vs) [] ≡ some vs)
      × (decode_slice decode_listing [] (encode_listings ls) [] ≡ some ls)
      × (decode_devices (encode_devices ds) [] ≡ some ds)
decode-encode vs ls ds = (vm_info_lem vs, listings_lem ls, devices_lem ds)

unmarshal-print_lem :
    {A : Type 0} (d : Decoder A) (z a : A) (j : Json)
    → is_plain j ≡ true
    → d j z ≡ some a
    → unmarshal d z (print j "") ≡ some a
unmarshal-print_lem d z a j plain e = rw (unmarshal, read-print j plain) e

-- The text that is printed for any virtual machines, datastore listings and devices, which have no
-- control characters in their names and paths, is unmarshalled to just these: the power states and
-- whether a question is pending, the paths, and the names with the files behind them.
pub unmarshal-print :
    (vs : List VirtualMachine) (ls : List (List String)) (ds : List Device)
    → is_plain (encode_vm_info vs) ≡ true
    → is_plain (encode_listings ls) ≡ true
    → is_plain (encode_devices ds) ≡ true
    → (unmarshal_vm_info (print (encode_vm_info vs) "") ≡ some vs)
      × (unmarshal_listings (print (encode_listings ls) "") ≡ some ls)
      × (unmarshal_devices (print (encode_devices ds) "") ≡ some ds)
unfolding unmarshal_vm_info unmarshal_listings unmarshal_devices
unmarshal-print vs ls ds plain_vs plain_ls plain_ds =
    let (a, b, c) = decode-encode vs ls ds in
    (
      unmarshal-print_lem decode_vm_info [] vs (encode_vm_info vs) plain_vs a,
      unmarshal-print_lem (decode_slice decode_listing []) [] ls (encode_listings ls) plain_ls b,
      unmarshal-print_lem decode_devices [] ds (encode_devices ds) plain_ds c,
    )
