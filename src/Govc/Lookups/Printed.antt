-- ===== src/Govc/Lookups/Printed.antt =====
-- govc/govc_client.go: `vmState`, `datastorePathExists` and `getVMDiskName` over a world that prints
-- given answers.
use mathlib.Core.Bool.{false≢true}
use bosh_esxi_cpi_release.Prelude.{
  refl, ◌⊎◌, inl, inr, ◌≢◌, str_eq, str_eq_iff, Bool-cases, false, sym, ◌∙◌, String, true, none,
  List, [], ◌∷◌, ◌≡◌, ◌↔◌, some, arith,
}
use bosh_esxi_cpi_release.Go.World.{World, History}
use bosh_esxi_cpi_release.Go.Monad.{returned}
use bosh_esxi_cpi_release.Json.Print.{print, is_plain}
use bosh_esxi_cpi_release.Govc.Oracle.{world_client}
use bosh_esxi_cpi_release.Govc.Answers.{VirtualMachine, Device, state_of, path_found, found_device}
use bosh_esxi_cpi_release.Govc.Answers.RoundTrip.{
  encode_vm_info, encode_listings, encode_devices, unmarshal-print,
}
use bosh_esxi_cpi_release.Govc.Answers.Search.{Listed, path_found_iff, Outcome, found_device_last}
use bosh_esxi_cpi_release.Govc.Host.{base_flags, info, listing}
use bosh_esxi_cpi_release.Govc.Detaching.{info_flags, device_info}
use bosh_esxi_cpi_release.Govc.Lookups.{vm_state, datastore_path_exists, get_vm_disk_name}

-- The state of the first machine that was listed: a pending question goes before its power state.
abbrev pub IsStateOf : List VirtualMachine → String → Type 0
IsStateOf [] state = state ≡ "state-not-found"
IsStateOf (v ∷ vs) state =
    ((v.runtime.question ≡ true) × (state ≡ "state-blocking-question"))
    ⊎ ((v.runtime.question ≡ false) × (v.runtime.power_state ≡ "poweredOn") × (state ≡ "state-on"))
    ⊎ ((v.runtime.question ≡ false) × (v.runtime.power_state ≢ "poweredOn") × (state ≡ "state-off"))

is_not_on : (s : String) → str_eq s "poweredOn" ≡ false → s ≢ "poweredOn"
is_not_on s p e = false≢true (sym p ∙ (str_eq_iff s "poweredOn").1 e)

state_of-IsStateOf : (vs : List VirtualMachine) → IsStateOf vs (state_of vs)
unfolding state_of
state_of-IsStateOf [] = refl
state_of-IsStateOf (v ∷ vs) = elim (Bool-cases v.runtime.question) [
  | inl pending ↦ inl (pending, rw pending refl)
  | inr clear ↦ elim (Bool-cases (str_eq v.runtime.power_state "poweredOn")) [
    | inl on ↦
        inr (inl (clear, (str_eq_iff v.runtime.power_state "poweredOn").0 on, rw (clear, on) refl))
    | inr off ↦ inr (inr (clear, is_not_on v.runtime.power_state off, rw (clear, off) refl))
  ]
]

module _ (w : World) (u : String) (h : History) where
  -- What `vm.info` prints of these machines, `datastore.ls` of these paths, and `device.info` of these
  -- devices of the VM.
  pub record Prints (vm_name : String) (vs : List VirtualMachine) (fs : List String)
      (ls : List (List String)) (ds : List Device) : Type 0 where
    pub prints_info :
        w.run_cli h "vm.info" (base_flags u) (some (vm_name ∷ []))
        ≡ (print (encode_vm_info vs) "", none)
    pub prints_listing :
        w.run_cli h "datastore.ls" (base_flags u) none
        ≡ (print (encode_listings (fs ∷ ls)) "", none)
    pub prints_devices :
        w.run_cli h "device.info" (info_flags w u vm_name "") none
        ≡ (print (encode_devices ds) "", none)
    pub plain_info : is_plain (encode_vm_info vs) ≡ true
    pub plain_listing : is_plain (encode_listings (fs ∷ ls)) ≡ true
    pub plain_devices : is_plain (encode_devices ds) ≡ true

  -- In a world where govc prints, as JSON without control characters, given machines for the VM's
  -- name, given paths in the first of its listings of the datastore, and given devices of the VM:
  -- `vmState` returns that there is no machine if none is listed, and else of the first machine that its question is pending, or, if none is, that it is on or off; `datastorePathExists` whether the path is
  -- listed first, and `getVMDiskName` the name of the last device whose file's name contains the
  -- disk's, or the empty name if there is none; each without an error, and each with its one
  -- command.
  pub lookups-Prints :
      (vm_name path disk_id : String) (vs : List VirtualMachine) (fs : List String)
      (ls : List (List String)) (ds : List Device)
      → Prints vm_name vs fs ls ds
      → (vm_state (world_client w u) vm_name h ≡ (returned (state_of vs, none), info u vm_name ∷ h))
        × IsStateOf vs (state_of vs)
        × (datastore_path_exists (world_client w u) path h
            ≡ (returned (path_found path fs, none), listing u ∷ h))
        × (get_vm_disk_name (world_client w u) vm_name disk_id h
            ≡ (returned (found_device disk_id "" ds, none), device_info w u vm_name disk_id ∷ h))
        × (path_found path fs ≡ true ↔ Listed path fs)
        × Outcome disk_id "" ds
  unfolding vm_state datastore_path_exists get_vm_disk_name
  lookups-Prints vm_name path disk_id vs fs ls ds p =
      let (a, b, c) =
        unmarshal-print vs (fs ∷ ls) ds p.plain_info p.plain_listing p.plain_devices in
      (
        ground (arith, p.prints_info, a),
        state_of-IsStateOf vs,
        ground (arith, p.prints_listing, b),
        ground (arith, p.prints_devices, c),
        path_found_iff path fs,
        found_device_last disk_id "" ds,
      )
