-- ===== src/Govc/Client.antt =====
-- govc/govc_client.go: the methods of the interface `GovcClient`.
use bosh_esxi_cpi_release.Prelude.{
  ℕ, String, ◌<>◌, Bool, false, not, Option, none, some, [], ◌∷◌, str_eq, if◌then◌else◌,
}
use bosh_esxi_cpi_release.Prelude.Int.{ℤ}
use bosh_esxi_cpi_release.Go.World.{Error, Returns}
use bosh_esxi_cpi_release.Go.Monad.{M, pure, ◌>>=◌, check, logged, logged_error}
use bosh_esxi_cpi_release.Govc.Api.{GovcClient, GovcClientImpl}
use bosh_esxi_cpi_release.Govc.Answers.{state_not_found, state_power_on}
use bosh_esxi_cpi_release.Govc.Commands.{
  copy_datastore_stemcell, register_datastore_vm, config_vm_hardware, add_network, upload,
  change_vm_resources, eject_cdrom, insert_cdrom, connect_cdrom, disconnect_cdrom, stop_vm,
  unregister_vm, delete_datastore_object, run_disk_create, run_vm_disk_create, run_disk_attach,
  run_device_remove,
}
use bosh_esxi_cpi_release.Govc.Lookups.{vm_state, datastore_path_exists, get_vm_disk_name}
use bosh_esxi_cpi_release.Govc.Start.{start_vm}

module _ (c : GovcClientImpl) where
  unfoldable pub import_ovf : String → String → M (Returns String)
  import_ovf ovf_path vm_name = do
    u ← c.config.esx_url
    (result, err) ←
        c.runner.cli_command "import.ovf" (("name", vm_name) ∷ ("u", u) ∷ ("k", "true") ∷ [])
          (some (ovf_path ∷ []))
    check err (logged "import ovf" result) (pure (result, none))

  unfoldable pub clone_vm : String → String → M (Returns String)
  clone_vm source_vm_name clone_vm_name = do
    (copied, err) ← copy_datastore_stemcell c source_vm_name clone_vm_name
    check err (logged "copying datastore" copied) do
      (registered, err) ← register_datastore_vm c source_vm_name clone_vm_name
      check err (logged "registering VM" registered) do
        (result, err) ← config_vm_hardware c clone_vm_name
        check err (logged "configuring vm hardware" result) (pure (result, none))

  unfoldable pub set_vm_network_adapter : String → String → String → M (Option Error)
  set_vm_network_adapter vm_name network_name mac_address = do
    (result, err) ← add_network c vm_name network_name mac_address
    check err (logged_error "adding network") (pure none)

  unfoldable pub set_vm_resources : String → ℤ → ℤ → M (Option Error)
  set_vm_resources vm_name cpus ram = do
    (result, err) ← change_vm_resources c vm_name cpus ram
    check err (logged_error "setting vm cpu and ram") (pure none)

  unfoldable pub update_vm_iso : String → String → M (Returns String)
  update_vm_iso vm_name local_iso_path = do
    (disconnected, err) ← disconnect_cdrom c vm_name
    check err (logged "connecting ENV cdrom" disconnected) do
      (ejected, err) ← eject_cdrom c vm_name
      check err (logged "ejecting ENV cdrom" ejected) do
        let datastore_iso_path = "/env/env-" <> (vm_name <> ".iso")
        (uploaded, err) ← upload c vm_name local_iso_path datastore_iso_path
        check err (logged "uploading ENV cdrom" uploaded) do
          (inserted, err) ← insert_cdrom c vm_name datastore_iso_path
          check err (logged "inserting ENV cdrom" inserted) do
            (result, err) ← connect_cdrom c vm_name
            check err (logged "connecting ENV cdrom" result) (pure (result, none))

  unfoldable pub has_vm : String → M (Returns Bool)
  has_vm vm_name = do
    (result, err) ← vm_state c vm_name
    let found = not (str_eq result state_not_found)
    check err (logged "HasVM" false) (pure (found, none))

  unfoldable pub create_ephemeral_disk : String → ℤ → M (Option Error)
  create_ephemeral_disk vm_name disk_mb = do
    (result, err) ← run_vm_disk_create c vm_name disk_mb
    check err (logged_error "CreateEphemeralDisk") (pure none)

  unfoldable pub create_disk : String → ℤ → M (Option Error)
  create_disk disk_id disk_mb = do
    (result, err) ← run_disk_create c disk_id disk_mb
    check err (logged_error "CreateDisk") (pure none)

  unfoldable pub attach_disk : String → String → M (Option Error)
  attach_disk vm_name disk_id = do
    (result, err) ← run_disk_attach c vm_name disk_id
    check err (logged_error "AttachDisk") (pure none)

  unfoldable pub detach_disk : String → String → M (Option Error)
  detach_disk vm_name disk_id = do
    (disk_device_name, err) ← get_vm_disk_name c vm_name disk_id
    check err (logged_error "getVMDiskName") do
      (result, err) ← run_device_remove c vm_name disk_device_name
      check err (logged_error "DetachDisk") (pure none)

  unfoldable pub destroy_disk : String → M (Option Error)
  destroy_disk disk_name = do
    let disk_path = disk_name <> ".vmdk"
    (path_found, err) ← datastore_path_exists c disk_path
    check err (logged_error "finding Path") (
        if path_found
        then (do
          (result, err) ← delete_datastore_object c disk_path
          check err (logged_error "delete VM files") (pure none))
        else pure none)

  -- The parts of `DestroyVM`, from the last to the first; each is given `result` so far.
  unfoldable pub remove_files : String → String → M (Returns String)
  remove_files vm_name result = do
    (path_found, err) ← datastore_path_exists c vm_name
    check err (logged "finding Path" result) (
        if path_found
        then (do
          (result, err) ← delete_datastore_object c vm_name
          check err (logged "delete VM files" result) (pure (result, none)))
        else pure (result, none))

  unfoldable pub remove_vm : String → String → String → M (Returns String)
  unfolding remove_files
  remove_vm vm_name state result =
      if str_eq state state_not_found then remove_files vm_name result else do
        (result, err) ← unregister_vm c vm_name
        check err (logged "destroy VM" result) (remove_files vm_name result)

  unfoldable pub destroy_vm : String → M (Returns String)
  unfolding remove_vm
  destroy_vm vm_name = do
    (state, err) ← vm_state c vm_name
    check err (logged "getting state for VM" "") (
        if str_eq state state_power_on
        then (do
          (result, err) ← stop_vm c vm_name
          check err (logged "stopping VM" result) (remove_vm vm_name state result))
        else remove_vm vm_name state "")

  -- `NewClient`: the interface's methods over the fields of the struct.
  abbrev pub new_client : ℕ → ℕ → GovcClient
  new_client rounds turn = record {
    import_ovf = import_ovf;
    clone_vm = clone_vm;
    update_vm_iso = update_vm_iso;
    start_vm = λ vm_name. start_vm c vm_name rounds turn;
    has_vm = has_vm;
    set_vm_network_adapter = set_vm_network_adapter;
    set_vm_resources = set_vm_resources;
    create_ephemeral_disk = create_ephemeral_disk;
    create_disk = create_disk;
    attach_disk = attach_disk;
    detach_disk = detach_disk;
    destroy_disk = destroy_disk;
    destroy_vm = destroy_vm;
  }
