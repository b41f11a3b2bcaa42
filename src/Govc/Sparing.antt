-- ===== src/Govc/Sparing.antt =====
-- govc/govc_client.go: what the methods delete on the host, whatever they return.
use bosh_esxi_cpi_release.Prelude.{
  some, ℕ, zero, suc, String, ◌<>◌, Bool, false, not, str_eq_iff, ◌≡◌, arith, refl, str_eq,
}
use bosh_esxi_cpi_release.Prelude.Int.{ℤ}
use bosh_esxi_cpi_release.Go.World.{World, sleep, log_error}
use bosh_esxi_cpi_release.Go.Avoids.{
  here, later, Avoids, avoids_bind, avoids_told, avoids_check, avoids_pure, avoids_if,
}
use bosh_esxi_cpi_release.Govc.Answers.{state_blocking_question}
use bosh_esxi_cpi_release.Govc.Api.{GovcClient}
use bosh_esxi_cpi_release.Govc.Oracle.{world_client}
use bosh_esxi_cpi_release.Govc.Deletions.{deletes_any, deletes, deletes_other, any}
use bosh_esxi_cpi_release.Govc.Commands.{
  copy_datastore_stemcell, register_datastore_vm, config_vm_hardware, add_network, upload,
  change_vm_resources, eject_cdrom, insert_cdrom, connect_cdrom, disconnect_cdrom, stop_vm,
  unregister_vm, delete_datastore_object, run_disk_create, run_vm_disk_create, run_disk_attach,
  run_device_remove, power_on_vm, answer_copy_question,
}
use bosh_esxi_cpi_release.Govc.Lookups.{
  vm_state, datastore_path_exists, first_listing, get_vm_disk_name,
}
use bosh_esxi_cpi_release.Govc.Start.{
  Task, waits, ran, spawn, power_on_task, schedule, answer, poll, start_vm,
}
use bosh_esxi_cpi_release.Govc.Client.{
  new_client, import_ovf, clone_vm, set_vm_network_adapter, set_vm_resources, update_vm_iso, has_vm,
  create_ephemeral_disk, create_disk, attach_disk, detach_disk, destroy_disk, destroy_vm, remove_vm,
  remove_files,
}

module _ (w : World) (u : String) (chosen : String → Bool) where
  pub import_ovf-Avoids :
      (ovf_path vm_name : String)
      → Avoids (deletes_any chosen) (import_ovf (world_client w u) ovf_path vm_name)
  unfolding import_ovf
  import_ovf-Avoids ovf_path vm_name = record { grows = λ h. grind (arith, here, later) }

  pub clone_vm-Avoids :
      (a b : String) → Avoids (deletes_any chosen) (clone_vm (world_client w u) a b)
  unfolding clone_vm copy_datastore_stemcell register_datastore_vm config_vm_hardware
  clone_vm-Avoids a b = record { grows = λ h. grind (arith, here, later) }

  pub set_vm_network_adapter-Avoids :
      (n net mac : String)
      → Avoids (deletes_any chosen) (set_vm_network_adapter (world_client w u) n net mac)
  unfolding set_vm_network_adapter add_network
  set_vm_network_adapter-Avoids n net mac = record { grows = λ h. grind (arith, here, later) }

  pub set_vm_resources-Avoids :
      (n : String) (cpus ram : ℤ)
      → Avoids (deletes_any chosen) (set_vm_resources (world_client w u) n cpus ram)
  unfolding set_vm_resources change_vm_resources
  set_vm_resources-Avoids n cpus ram = record { grows = λ h. grind (arith, here, later) }

  pub update_vm_iso-Avoids :
      (n path : String) → Avoids (deletes_any chosen) (update_vm_iso (world_client w u) n path)
  unfolding update_vm_iso disconnect_cdrom eject_cdrom upload insert_cdrom connect_cdrom
  update_vm_iso-Avoids n path = record { grows = λ h. grind (arith, here, later) }

  vm_state-Avoids : (n : String) → Avoids (deletes_any chosen) (vm_state (world_client w u) n)
  unfolding vm_state
  vm_state-Avoids n = record { grows = λ h. grind (arith, here, later) }

  pub has_vm-Avoids : (n : String) → Avoids (deletes_any chosen) (has_vm (world_client w u) n)
  unfolding has_vm vm_state
  has_vm-Avoids n = record { grows = λ h. grind (arith, here, later) }

  pub create_ephemeral_disk-Avoids :
      (n : String) (mb : ℤ)
      → Avoids (deletes_any chosen) (create_ephemeral_disk (world_client w u) n mb)
  unfolding create_ephemeral_disk run_vm_disk_create
  create_ephemeral_disk-Avoids n mb = record { grows = λ h. grind (arith, here, later) }

  pub create_disk-Avoids :
      (n : String) (mb : ℤ) → Avoids (deletes_any chosen) (create_disk (world_client w u) n mb)
  unfolding create_disk run_disk_create
  create_disk-Avoids n mb = record { grows = λ h. grind (arith, here, later) }

  pub attach_disk-Avoids :
      (n disk : String) → Avoids (deletes_any chosen) (attach_disk (world_client w u) n disk)
  unfolding attach_disk run_disk_attach
  attach_disk-Avoids n disk = record { grows = λ h. grind (arith, here, later) }

  pub detach_disk-Avoids :
      (n disk : String) → Avoids (deletes_any chosen) (detach_disk (world_client w u) n disk)
  unfolding detach_disk get_vm_disk_name run_device_remove
  detach_disk-Avoids n disk = record { grows = λ h. grind (arith, here, later) }

  schedule-Avoids :
      (n : String) (t : Task) → Avoids (deletes_any chosen) (schedule (world_client w u) n t)
  unfolding schedule spawn power_on_task power_on_vm
  schedule-Avoids n ran = avoids_pure ran
  schedule-Avoids n (waits zero) = record { grows = λ h. grind (arith, here, later) }
  schedule-Avoids n (waits (suc k)) = avoids_pure (waits k)

  answer-Avoids : (n : String) → Avoids (deletes_any chosen) (answer (world_client w u) n)
  unfolding answer answer_copy_question
  answer-Avoids n = record { grows = λ h. grind (arith, here, later) }

  poll-Avoids :
      (n : String) (rounds : ℕ) (t : Task)
      → Avoids (deletes_any chosen) (poll (world_client w u) n rounds t)
  unfolding poll
  poll-Avoids n zero t = record { grows = λ h. here }
  poll-Avoids n (suc rounds) t = avoids_bind (schedule-Avoids n t) λ t'.
      avoids_told (sleep 300) refl (
        avoids_bind (vm_state-Avoids n) λ r.
          avoids_check r.1
            (λ e.
              avoids_told (log_error "govc" "fetching question state for VM" e) refl
                (avoids_pure ("", some e)))
            (avoids_if (str_eq r.0 state_blocking_question) (answer-Avoids n)
              (poll-Avoids n rounds t')))

  pub start_vm-Avoids :
      (n : String) (rounds turn : ℕ)
      → Avoids (deletes_any chosen) (start_vm (world_client w u) n rounds turn)
  unfolding start_vm
  start_vm-Avoids n rounds turn = poll-Avoids n rounds (waits turn)

  pub destroy_disk-Avoids :
      (disk : String)
      → chosen (disk <> ".vmdk") ≡ false
      → Avoids (deletes_any chosen) (destroy_disk (world_client w u) disk)
  unfolding destroy_disk datastore_path_exists first_listing delete_datastore_object
  destroy_disk-Avoids disk p = record { grows = λ h. grind (arith, here, later, p) }

  pub destroy_vm-Avoids :
      (n : String)
      → chosen n ≡ false
      → Avoids (deletes_any chosen) (destroy_vm (world_client w u) n)
  unfolding destroy_vm remove_vm remove_files vm_state datastore_path_exists first_listing
      delete_datastore_object stop_vm unregister_vm
  destroy_vm-Avoids n p = record { grows = λ h. grind (arith, here, later, p) }

-- What the methods of a client leave alone.
pub record ClientSpares (c : GovcClient) : Type 0 where
  pub imports : (ovf_path vm_name : String) → Avoids deletes (c.import_ovf ovf_path vm_name)
  pub clones : (source clone : String) → Avoids deletes (c.clone_vm source clone)
  pub updates : (n path : String) → Avoids deletes (c.update_vm_iso n path)
  pub starts : (n : String) → Avoids deletes (c.start_vm n)
  pub finds : (n : String) → Avoids deletes (c.has_vm n)
  pub wires : (n net mac : String) → Avoids deletes (c.set_vm_network_adapter n net mac)
  pub resizes : (n : String) (cpus ram : ℤ) → Avoids deletes (c.set_vm_resources n cpus ram)
  pub equips : (n : String) (mb : ℤ) → Avoids deletes (c.create_ephemeral_disk n mb)
  pub creates : (disk : String) (mb : ℤ) → Avoids deletes (c.create_disk disk mb)
  pub attaches : (n disk : String) → Avoids deletes (c.attach_disk n disk)
  pub detaches : (n disk : String) → Avoids deletes (c.detach_disk n disk)
  pub destroys_disk :
      (disk : String) → Avoids (deletes_other (disk <> ".vmdk")) (c.destroy_disk disk)
  pub destroys_vm : (n : String) → Avoids (deletes_other n) (c.destroy_vm n)

itself : (n : String) → not (str_eq n n) ≡ false
itself n = rw ((str_eq_iff n n).1 refl) refl

-- Over any world and whatever comes of the call, errors and panics included: no method of the
-- client but `DestroyVM` and `DestroyDisk` runs a command that may delete anything; `DestroyVM` runs
-- none but deletions whose one argument is the machine's name, and `DestroyDisk` none but deletions
-- whose one argument is the disk's file.
pub new_client-ClientSpares :
    (w : World) (u : String) (rounds turn : ℕ)
    → ClientSpares (new_client (world_client w u) rounds turn)
new_client-ClientSpares w u rounds turn = record {
  imports = import_ovf-Avoids w u any;
  clones = clone_vm-Avoids w u any;
  updates = update_vm_iso-Avoids w u any;
  starts = λ n. start_vm-Avoids w u any n rounds turn;
  finds = has_vm-Avoids w u any;
  wires = set_vm_network_adapter-Avoids w u any;
  resizes = set_vm_resources-Avoids w u any;
  equips = create_ephemeral_disk-Avoids w u any;
  creates = create_disk-Avoids w u any;
  attaches = attach_disk-Avoids w u any;
  detaches = detach_disk-Avoids w u any;
  destroys_disk = λ disk. destroy_disk-Avoids w u _ disk (itself (disk <> ".vmdk"));
  destroys_vm = λ n. destroy_vm-Avoids w u _ n (itself n);
}
