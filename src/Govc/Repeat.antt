-- ===== src/Govc/Repeat.antt =====
-- govc/govc_client.go: `DestroyVM` once more on a machine that is gone, and `DestroyDisk`.
use bosh_esxi_cpi_release.Prelude.{
  String, ◌<>◌, Bool, true, false, none, some, List, [], ◌∷◌, ◌≡◌, refl, arith,
}
use bosh_esxi_cpi_release.Go.World.{History, World, Returns}
use bosh_esxi_cpi_release.Go.Monad.{Exit, returned, panicked, looping}
use bosh_esxi_cpi_release.Govc.Answers.{VirtualMachine, state_of, path_found, state_not_found}
use bosh_esxi_cpi_release.Govc.Answers.Search.{path_found_iff}
use bosh_esxi_cpi_release.Govc.Commands.{delete_datastore_object}
use bosh_esxi_cpi_release.Govc.Lookups.{vm_state, datastore_path_exists}
use bosh_esxi_cpi_release.Govc.Client.{destroy_disk, destroy_vm}
use bosh_esxi_cpi_release.Govc.Oracle.{world_client}
use bosh_esxi_cpi_release.Govc.Host.{Host, is_empty, base_flags, info, listing}
use bosh_esxi_cpi_release.Govc.Removal.{IsGone, bool_eq, datastore_path_exists_lem}

state_of_empty : (vs : List VirtualMachine) → is_empty vs ≡ true → state_of vs ≡ state_not_found
unfolding state_of
state_of_empty [] h = refl
state_of_empty (v ∷ vs) h = cc

module _ (w : World) (u : String) (host : Host w u) where
  vm_state_absent :
      (n : String) (h : History) {t : String}
      → host.registered h n ≡ false
      → w.run_cli h "vm.info" (base_flags u) (some (n ∷ [])) ≡ (t, none)
      → vm_state (world_client w u) n h ≡ (returned (state_not_found, none), info u n ∷ h)
  unfolding vm_state
  vm_state_absent n h {t} gone q =
      let (vs, a, b) = host.info_answer h n t q in ground (arith, q, a, b, gone, state_of_empty vs)

  pub path_exists_run :
      (p : String) (h : History) {t : String}
      → w.run_cli h "datastore.ls" (base_flags u) none ≡ (t, none)
      → datastore_path_exists (world_client w u) p h
        ≡ (returned (host.stored h p, none), listing u ∷ h)
  unfolding datastore_path_exists
  path_exists_run p h {t} q =
      let (fs, rest, a, k) = host.listing_answer h t q in
      let same : path_found p fs ≡ host.stored h p =
        bool_eq w u host _ _ (λ f. (k p).0 ((path_found_iff p fs).0 f))
          (λ s. (path_found_iff p fs).1 ((k p).1 s)) in
      ground (arith, q, a, same)

  -- On a host that keeps the laws of `Host`, and for a machine that is gone: `DestroyVM` asks for the machine and lists the datastore, runs no other
  -- command and succeeds, if govc answers these two.
  pub destroy_vm_again :
      (n : String) (h : History) {t l : String}
      → IsGone w u host n h
      → w.run_cli h "vm.info" (base_flags u) (some (n ∷ [])) ≡ (t, none)
      → w.run_cli (info u n ∷ h) "datastore.ls" (base_flags u) none ≡ (l, none)
      → destroy_vm (world_client w u) n h ≡ (returned ("", none), listing u ∷ info u n ∷ h)
  unfolding destroy_vm
  destroy_vm_again n h gone q p = ground (
    arith,
    gone,
    vm_state_absent n h gone.0 q,
    path_exists_run n (info u n ∷ h) p,
    host.stored-info h n n,
  )

  -- On a host that keeps the laws of `Host`: after `DestroyDisk` has returned without an error, no file of the disk's name is left in the
  -- datastore.
  pub destroy_disk-not_stored :
      (d : String) (h : History) {h' : History}
      → destroy_disk (world_client w u) d h ≡ (returned none, h')
      → host.stored h' (d <> ".vmdk") ≡ false
  unfolding destroy_disk delete_datastore_object
  destroy_disk-not_stored d h {h'} e = go _ refl
    where
      go :
          (x : Exit (Returns Bool) × History)
          → datastore_path_exists (world_client w u) (d <> ".vmdk") h ≡ x
          → host.stored h' (d <> ".vmdk") ≡ false
      go (panicked k, h1) q = ground (arith, q)
      go (looping, h1) q = ground (arith, q)
      go (returned (b, some x), h1) q = ground (arith, q)
      go (returned (b, none), h1) q =
          let (a, k) = datastore_path_exists_lem w u host (d <> ".vmdk") h q in
          ground (
            arith,
            q,
            a,
            k,
            host.stored-listing h (d <> ".vmdk"),
            host.removed (listing u ∷ h) (d <> ".vmdk"),
          )
