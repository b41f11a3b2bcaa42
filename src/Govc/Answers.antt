-- ===== src/Govc/Answers.antt =====
-- govc/govc_client.go: the anonymous structs into which `vmState`, `datastorePathExists` and
-- `getVMDiskName` unmarshal what govc prints, and what they read from them.
pub mod RoundTrip
pub mod Search
use bosh_esxi_cpi_release.Prelude.{
  String, Bool, true, false, Option, none, some, List, [], ◌∷◌, str_eq, contains, if◌then◌else◌,
}
use bosh_esxi_cpi_release.Json.Read.{read}
use bosh_esxi_cpi_release.Json.Decode.{
  Decoder, decode_string, decode_any, decode_slice, decode_struct, within,
}

abbrev pub state_not_found : String
state_not_found = "state-not-found"

abbrev pub state_power_on : String
state_power_on = "state-on"

abbrev pub state_power_off : String
state_power_off = "state-off"

abbrev pub state_blocking_question : String
state_blocking_question = "state-blocking-question"

-- `Runtime`. The field `question` says whether the interface is not `nil`.
pub record Runtime : Type 0 where
  pub power_state : String
  pub question : Bool

-- An element of `VirtualMachines`.
pub record VirtualMachine : Type 0 where
  pub runtime : Runtime

abbrev zero_runtime : Runtime
zero_runtime = record { power_state = ""; question = false }

abbrev pub zero_virtual_machine : VirtualMachine
zero_virtual_machine = record { runtime = zero_runtime }

unfoldable pub decode_runtime : Decoder Runtime
unfolding decode_struct decode_string decode_any
decode_runtime = decode_struct (
    ("PowerState", within (λ r. r.power_state) (λ s r. record r { power_state = s }) decode_string)
    ∷ ("Question", within (λ r. r.question) (λ b r. record r { question = b }) decode_any)
    ∷ [])

unfoldable pub decode_virtual_machine : Decoder VirtualMachine
unfolding decode_runtime
decode_virtual_machine =
    decode_struct
      (("Runtime", within (λ v. v.runtime) (λ r v. record v { runtime = r }) decode_runtime) ∷ [])

-- A struct with one field is modelled by that field.
unfoldable pub decode_vm_info : Decoder (List VirtualMachine)
unfolding decode_virtual_machine decode_slice
decode_vm_info = decode_struct (
    (
      "VirtualMachines",
      within (λ vs. vs) (λ vs _. vs) (decode_slice decode_virtual_machine zero_virtual_machine),
    )
    ∷ [])

-- `json.Unmarshal([]byte(result), &response)`.
abbrev pub unmarshal : {A : Type 0} → Decoder A → A → String → Option A
unmarshal d zero_value result = elim (read result) [ none ↦ none | some j ↦ d j zero_value ]

unfoldable pub unmarshal_vm_info : String → Option (List VirtualMachine)
unfolding decode_vm_info
unmarshal_vm_info = unmarshal decode_vm_info []

-- An element of the answer of `datastore.ls`: the paths of its `File`s.
unfoldable pub decode_file : Decoder String
unfolding decode_struct decode_string
decode_file = decode_struct (("Path", within (λ p. p) (λ p _. p) decode_string) ∷ [])

unfoldable pub decode_listing : Decoder (List String)
unfolding decode_file decode_slice
decode_listing =
    decode_struct (("File", within (λ fs. fs) (λ fs _. fs) (decode_slice decode_file "")) ∷ [])

unfoldable pub unmarshal_listings : String → Option (List (List String))
unfolding decode_listing
unmarshal_listings = unmarshal (decode_slice decode_listing []) []

-- An element of `Devices`; `file_name` is `Backing.Parent.FileName`.
pub record Device : Type 0 where
  pub name : String
  pub file_name : String

abbrev pub zero_device : Device
zero_device = record { name = ""; file_name = "" }

unfoldable pub decode_parent : Decoder String
unfolding decode_struct decode_string
decode_parent = decode_struct (("FileName", within (λ f. f) (λ f _. f) decode_string) ∷ [])

unfoldable pub decode_backing : Decoder String
unfolding decode_parent
decode_backing = decode_struct (("Parent", within (λ f. f) (λ f _. f) decode_parent) ∷ [])

unfoldable pub decode_device : Decoder Device
unfolding decode_backing
decode_device = decode_struct (
    ("Name", within (λ d. d.name) (λ n d. record d { name = n }) decode_string)
    ∷ ("Backing", within (λ d. d.file_name) (λ f d. record d { file_name = f }) decode_backing)
    ∷ [])

unfoldable pub decode_devices : Decoder (List Device)
unfolding decode_device decode_slice
decode_devices =
    decode_struct
      (("Devices", within (λ ds. ds) (λ ds _. ds) (decode_slice decode_device zero_device)) ∷ [])

unfoldable pub unmarshal_devices : String → Option (List Device)
unfolding decode_devices
unmarshal_devices = unmarshal decode_devices []

-- What `vmState` reads off the answer.
unfoldable pub state_of : List VirtualMachine → String
state_of [] = state_not_found
state_of (v ∷ vs) =
    if v.runtime.question
    then state_blocking_question
    else if str_eq v.runtime.power_state "poweredOn"
    then state_power_on
    else state_power_off

-- The loop of `datastorePathExists`, which stops at the first match.
unfoldable pub path_found : String → List String → Bool
path_found datastore_path [] = false
path_found datastore_path (file ∷ files) =
    let rest = path_found datastore_path files in if str_eq file datastore_path then true else rest

-- The loop of `getVMDiskName`, from the value of `foundDevice`. It runs to the end.
unfoldable pub found_device : String → String → List Device → String
found_device disk_id found [] = found
found_device disk_id found (device ∷ devices) =
    found_device disk_id (if contains device.file_name disk_id then device.name else found) devices
