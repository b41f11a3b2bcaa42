-- ===== src/Govc/Commands.antt =====
-- govc/govc_client.go: the methods that run one govc command and hand its result back.
use bosh_esxi_cpi_release.Prelude.{String, ◌<>◌, none, some, [], ◌∷◌}
use bosh_esxi_cpi_release.Prelude.Int.{ℤ}
use bosh_esxi_cpi_release.Prelude.Decimal.{itoa}
use bosh_esxi_cpi_release.Go.World.{Returns}
use bosh_esxi_cpi_release.Go.Monad.{M, ◌>>=◌}
use bosh_esxi_cpi_release.Govc.Api.{GovcClientImpl}

module _ (c : GovcClientImpl) where
  unfoldable pub copy_datastore_stemcell : String → String → M (Returns String)
  copy_datastore_stemcell stemcell_vm_name clone_vm_name = do
    u ← c.config.esx_url
    c.runner.cli_command "datastore.cp" (("u", u) ∷ ("k", "true") ∷ [])
        (some (stemcell_vm_name ∷ clone_vm_name ∷ []))

  unfoldable pub register_datastore_vm : String → String → M (Returns String)
  register_datastore_vm stemcell_vm_name clone_vm_name = do
    let vmx_path = clone_vm_name <> ("/" <> (stemcell_vm_name <> ".vmx"))
    u ← c.config.esx_url
    c.runner.cli_command "vm.register" (("name", clone_vm_name) ∷ ("u", u) ∷ ("k", "true") ∷ [])
        (some (vmx_path ∷ []))

  unfoldable pub config_vm_hardware : String → M (Returns String)
  config_vm_hardware clone_vm_name = do
    u ← c.config.esx_url
    c.runner.cli_command "vm.change"
        (("vm", clone_vm_name)
          ∷ ("nested-hv-enabled", "true")
          ∷ ("sync-time-with-host", "true")
          ∷ ("u", u)
          ∷ ("k", "true")
          ∷ [])
        none

  unfoldable pub add_network : String → String → String → M (Returns String)
  add_network vm_name network_name mac_address = do
    u ← c.config.esx_url
    c.runner.cli_command "vm.network.add"
        (("vm", vm_name)
          ∷ ("net", network_name)
          ∷ ("net.adapter", "vmxnet3")
          ∷ ("net.address", mac_address)
          ∷ ("u", u)
          ∷ ("k", "true")
          ∷ [])
        none

  unfoldable pub upload : String → String → String → M (Returns String)
  upload clone_vm_name local_path datastore_path = do
    u ← c.config.esx_url
    c.runner.cli_command "datastore.upload" (("u", u) ∷ ("k", "true") ∷ [])
        (some (local_path ∷ datastore_path ∷ []))

  -- The lower-case method `setVMResources`.
  unfoldable pub change_vm_resources : String → ℤ → ℤ → M (Returns String)
  change_vm_resources vm_name cpu_count ram_mb = do
    let cpu = itoa cpu_count
    let mem = itoa ram_mb
    u ← c.config.esx_url
    c.runner.cli_command "vm.change"
        (("vm", vm_name) ∷ ("c", cpu) ∷ ("m", mem) ∷ ("u", u) ∷ ("k", "true") ∷ []) none

  unfoldable pub eject_cdrom : String → M (Returns String)
  eject_cdrom clone_vm_name = do
    u ← c.config.esx_url
    c.runner.cli_command "device.cdrom.eject"
        (("vm", clone_vm_name) ∷ ("u", u) ∷ ("k", "true") ∷ []) none

  unfoldable pub insert_cdrom : String → String → M (Returns String)
  insert_cdrom clone_vm_name datastore_path = do
    u ← c.config.esx_url
    c.runner.cli_command "device.cdrom.insert"
        (("vm", clone_vm_name) ∷ ("u", u) ∷ ("k", "true") ∷ []) (some (datastore_path ∷ []))

  unfoldable pub connect_cdrom : String → M (Returns String)
  connect_cdrom clone_vm_name = do
    u ← c.config.esx_url
    c.runner.cli_command "device.connect" (("vm", clone_vm_name) ∷ ("u", u) ∷ ("k", "true") ∷ [])
        (some ("cdrom-3000" ∷ []))

  unfoldable pub disconnect_cdrom : String → M (Returns String)
  disconnect_cdrom clone_vm_name = do
    u ← c.config.esx_url
    c.runner.cli_command "device.disconnect" (("vm", clone_vm_name) ∷ ("u", u) ∷ ("k", "true") ∷ [])
        (some ("cdrom-3000" ∷ []))

  unfoldable pub power_on_vm : String → M (Returns String)
  power_on_vm clone_vm_name = do
    u ← c.config.esx_url
    c.runner.cli_command "vm.power" (("on", "true") ∷ ("u", u) ∷ ("k", "true") ∷ [])
        (some (clone_vm_name ∷ []))

  unfoldable pub answer_copy_question : String → M (Returns String)
  answer_copy_question clone_vm_name = do
    u ← c.config.esx_url
    c.runner.cli_command "vm.question"
        (("vm", clone_vm_name) ∷ ("answer", "2") ∷ ("u", u) ∷ ("k", "true") ∷ []) none

  unfoldable pub stop_vm : String → M (Returns String)
  stop_vm clone_vm_name = do
    u ← c.config.esx_url
    c.runner.cli_command "vm.power" (("off", "true") ∷ ("u", u) ∷ ("k", "true") ∷ [])
        (some (clone_vm_name ∷ []))

  -- The lower-case method `destroyVm`.
  unfoldable pub unregister_vm : String → M (Returns String)
  unregister_vm vm_name = do
    u ← c.config.esx_url
    c.runner.cli_command "vm.destroy" (("u", u) ∷ ("k", "true") ∷ []) (some (vm_name ∷ []))

  unfoldable pub delete_datastore_object : String → M (Returns String)
  delete_datastore_object datastore_path = do
    u ← c.config.esx_url
    c.runner.cli_command "datastore.rm" (("f", "true") ∷ ("u", u) ∷ ("k", "true") ∷ [])
        (some (datastore_path ∷ []))

  -- The lower-case method `createDisk`.
  unfoldable pub run_disk_create : String → ℤ → M (Returns String)
  run_disk_create disk_id disk_mb = do
    let disk_path = disk_id <> ".vmdk"
    let disk_size = itoa disk_mb <> "MB"
    u ← c.config.esx_url
    c.runner.cli_command "datastore.disk.create"
        (("size", disk_size) ∷ ("u", u) ∷ ("k", "true") ∷ []) (some (disk_path ∷ []))

  -- The lower-case method `createEphemeralDisk`.
  unfoldable pub run_vm_disk_create : String → ℤ → M (Returns String)
  run_vm_disk_create vm_name disk_mb = do
    let disk_path = vm_name <> "/ephemeral.vmdk"
    let disk_size = itoa disk_mb <> "MB"
    u ← c.config.esx_url
    c.runner.cli_command "vm.disk.create"
        (("vm", vm_name)
          ∷ ("name", disk_path)
          ∷ ("size", disk_size)
          ∷ ("u", u)
          ∷ ("k", "true")
          ∷ [])
        none

  -- The lower-case method `attachDisk`.
  unfoldable pub run_disk_attach : String → String → M (Returns String)
  run_disk_attach vm_name disk_id = do
    let disk_path = disk_id <> ".vmdk"
    u ← c.config.esx_url
    c.runner.cli_command "vm.disk.attach"
        (("vm", vm_name) ∷ ("disk", disk_path) ∷ ("link", "true") ∷ ("u", u) ∷ ("k", "true") ∷ [])
        none

  -- The lower-case method `detachDisk`.
  unfoldable pub run_device_remove : String → String → M (Returns String)
  run_device_remove vm_name disk_name = do
    u ← c.config.esx_url
    c.runner.cli_command "device.remove"
        (("vm", vm_name) ∷ ("keep", "true") ∷ ("u", u) ∷ ("k", "true") ∷ []) (some (disk_name ∷ []))
