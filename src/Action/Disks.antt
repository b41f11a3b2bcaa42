-- ===== src/Action/Disks.antt =====
-- action/create_disk.go, action/delete_disk.go, action/attach_disk.go and action/detach_disk.go.
pub mod Pushed
use bosh_esxi_cpi_release.Prelude.{String, ◌<>◌, Option, none, some, inl, inr}
use bosh_esxi_cpi_release.Prelude.Int.{ℤ}
use bosh_esxi_cpi_release.Go.World.{Error, generate_uuid, log_message, World, Returns}
use bosh_esxi_cpi_release.Go.Monad.{M, pure, ask, tell, ◌>>=◌, ◌>>◌, check}
use bosh_esxi_cpi_release.Apiv1.{Apiv1, DiskHint}
use bosh_esxi_cpi_release.Govc.Api.{GovcClient}
use bosh_esxi_cpi_release.Vm.Settings.{AgentSettings}

pub record CreateDiskMethod : Type 0 where
  pub govc_client : GovcClient

unfoldable pub create_disk : World → CreateDiskMethod → ℤ → M (Returns String)
create_disk w c size_mb = do
  (disk_uuid, _) ← ask generate_uuid w.uuid
  let disk_id = "disk-" <> disk_uuid
  err ← c.govc_client.create_disk disk_id size_mb
  check err (λ e. pure (disk_uuid, some e)) (pure (disk_uuid, none))

pub record DeleteDiskMethod : Type 0 where
  pub govc_client : GovcClient

unfoldable pub delete_disk : DeleteDiskMethod → String → M (Option Error)
delete_disk c cid = do
  let disk_id = "disk-" <> cid
  err ← c.govc_client.destroy_disk disk_id
  check err (λ e. do tell (log_message "cpi" ("deleting disk: " <> disk_id)); pure (some e))
      (pure none)

module _ (api : Apiv1) where
  pub record AttachDiskMethod : Type 0 where
    pub govc_client : GovcClient
    pub agent_settings : AgentSettings api.AgentEnv

  abbrev pub persistent_hint : DiskHint
  persistent_hint = record { path = "/dev/sdc"; volume_id = "2"; lun = "0" }

  -- The end of `AttachDisk` and of `DetachDisk`: the new settings go to the VM's ISO.
  unfoldable pub push_settings :
      GovcClient → AgentSettings api.AgentEnv → String → api.AgentEnv → M (Option Error)
  push_settings govc settings vm_id agent_env = do
    (env_iso_path, err) ← settings.generate_agent_env_iso agent_env
    check err (λ e. pure (some e))
        do
          (_, err) ← govc.update_vm_iso vm_id env_iso_path
          check err (λ e. pure (some e)) do settings.cleanup; pure none

  unfoldable pub attach_disk : AttachDiskMethod → String → String → M (Option Error)
  unfolding push_settings
  attach_disk c vm_cid disk_cid = do
    let vm_id = "vm-" <> vm_cid
    let disk_id = "disk-" <> disk_cid
    err ← c.govc_client.attach_disk vm_id disk_id
    check err (λ e. pure (some e))
        do
          agent_env_bytes ← c.agent_settings.agent_env_bytes_from_file
          elim (api.from_bytes agent_env_bytes) [
            | inl e ↦ pure (some e)
            | inr agent_env ↦
                push_settings c.govc_client c.agent_settings vm_id
                  (api.attach_persistent_disk disk_cid persistent_hint agent_env)
          ]

  pub record DetachDiskMethod : Type 0 where
    pub govc_client : GovcClient
    pub agent_settings : AgentSettings api.AgentEnv

  unfoldable pub detach_disk : DetachDiskMethod → String → String → M (Option Error)
  unfolding push_settings
  detach_disk c vm_cid disk_cid = do
    let vm_id = "vm-" <> vm_cid
    let disk_id = "disk-" <> disk_cid
    err ← c.govc_client.detach_disk vm_id disk_id
    check err (λ e. pure (some e))
        do
          agent_env_bytes ← c.agent_settings.agent_env_bytes_from_file
          elim (api.from_bytes agent_env_bytes) [
            | inl e ↦ pure (some e)
            | inr agent_env ↦
                push_settings c.govc_client c.agent_settings vm_id
                  (api.detach_persistent_disk disk_cid agent_env)
          ]
