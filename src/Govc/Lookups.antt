-- ===== src/Govc/Lookups.antt =====
-- govc/govc_client.go: `vmState`, `datastorePathExists` and `getVMDiskName`, which read the answer
-- of a command.
pub mod Printed
use bosh_esxi_cpi_release.Prelude.{String, Bool, false, none, some, List, [], ◌∷◌, ◌<>◌}
use bosh_esxi_cpi_release.Go.World.{wrapped, bad_json, Returns}
use bosh_esxi_cpi_release.Go.Monad.{M, pure, panic, ◌>>=◌, check}
use bosh_esxi_cpi_release.Govc.Api.{GovcClientImpl}
use bosh_esxi_cpi_release.Govc.Answers.{
  unmarshal_vm_info, unmarshal_listings, unmarshal_devices, state_of, path_found, found_device,
}

-- `response[0].File`, out of range if the answer is an empty list.
unfoldable pub first_listing : String → List (List String) → M (Returns Bool)
first_listing datastore_path [] = panic "index out of range"
first_listing datastore_path (files ∷ _) = pure (path_found datastore_path files, none)

module _ (c : GovcClientImpl) where
  unfoldable pub vm_state : String → M (Returns String)
  vm_state vm_name = do
    u ← c.config.esx_url
    (result, err) ←
        c.runner.cli_command "vm.info" (("u", u) ∷ ("k", "true") ∷ []) (some (vm_name ∷ []))
    check err (λ e. pure (result, some e))
        (elim (unmarshal_vm_info result) [
          | none ↦ pure (result, some (bad_json result))
          | some response ↦ pure (state_of response, none)
        ])

  unfoldable pub datastore_path_exists : String → M (Returns Bool)
  unfolding first_listing
  datastore_path_exists datastore_path = do
    u ← c.config.esx_url
    (result, err) ← c.runner.cli_command "datastore.ls" (("u", u) ∷ ("k", "true") ∷ []) none
    check err (λ e. pure (false, some e))
        (elim (unmarshal_listings result) [
          | none ↦ pure (false, some (wrapped (bad_json result) ("result: " <> result)))
          | some response ↦ first_listing datastore_path response
        ])

  unfoldable pub get_vm_disk_name : String → String → M (Returns String)
  get_vm_disk_name vm_name disk_id = do
    u ← c.config.esx_url
    (result, err) ←
        c.runner.cli_command "device.info"
          (("json", "true") ∷ ("vm", vm_name) ∷ ("u", u) ∷ ("k", "true") ∷ []) none
    check err (λ e. pure (result, some e))
        (elim (unmarshal_devices result) [
          | none ↦ pure (result, some (bad_json result))
          | some response ↦ pure (found_device disk_id "" response, none)
        ])
