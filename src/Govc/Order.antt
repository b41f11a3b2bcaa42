-- ===== src/Govc/Order.antt =====
-- govc/govc_client.go: when `DestroyVM` deletes files.
use mathlib.Core.Bool.{false≢true}
use bosh_esxi_cpi_release.Prelude.{
  String, Bool, true, false, none, some, [], ◌∷◌, ◌≡◌, refl, arith, ◌⊎◌, inl, inr, Bool-cases,
  str_eq, sym, ap, ◌∙◌,
}
use bosh_esxi_cpi_release.Go.World.{World, Error, History, log_error, Returns}
use bosh_esxi_cpi_release.Go.Monad.{Exit, returned, panicked, looping, ◌>>=◌, check, logged}
use bosh_esxi_cpi_release.Govc.Answers.{state_not_found, state_power_on}
use bosh_esxi_cpi_release.Govc.Commands.{stop_vm, unregister_vm, delete_datastore_object}
use bosh_esxi_cpi_release.Govc.Lookups.{vm_state, datastore_path_exists, first_listing}
use bosh_esxi_cpi_release.Govc.Client.{remove_files, remove_vm, destroy_vm}
use bosh_esxi_cpi_release.Govc.Oracle.{world_client}
use bosh_esxi_cpi_release.Govc.Host.{
  Host, base_flags, info, listing, destroying, removing, powering_off,
}
use bosh_esxi_cpi_release.Govc.Removal.{vm_state_lem, on_is_found}

complaint : History → String
complaint (log_error t m e ∷ h) = m
complaint _ = ""

module _ (w : World) (u : String) (host : Host w u) where
  -- The history ends with the deletion of what is called `n`, or with the note that it failed; `h1`
  -- are the events before the deletion.
  abbrev pub Deletes : String → History → History → Type 0
  Deletes n h1 h' =
      (h' ≡ removing u n ∷ h1)
      ⊎ ((e : Error) × (h' ≡ log_error "govc" "delete VM files" e ∷ removing u n ∷ h1))

  path_exists_history :
      (p : String) (h : History) → (datastore_path_exists (world_client w u) p h).1 ≡ listing u ∷ h
  unfolding datastore_path_exists first_listing
  path_exists_history p h = ground arith

  vm_state_history : (n : String) (h : History) → (vm_state (world_client w u) n h).1 ≡ info u n ∷ h
  unfolding vm_state
  vm_state_history n h = ground arith

  remove_files_order :
      (n r0 : String) (h h1 : History)
      → host.registered h n ≡ false
      → Deletes n h1 (remove_files (world_client w u) n r0 h).1
      → host.registered h1 n ≡ false
  unfolding remove_files delete_datastore_object
  remove_files_order n r0 h h1 gone d = go _ refl
    where
      go :
          (x : Exit (Returns Bool) × History)
          → datastore_path_exists (world_client w u) n h ≡ x
          → host.registered h1 n ≡ false
      go (x, h2) q =
          let a : h2 ≡ listing u ∷ h = sym (ap (λ y. y.1) q) ∙ path_exists_history n h in
          ground (arith, q, a, d, gone, host.registered-listing h n)

  remove_vm_order :
      (n s r0 : String) (h h1 : History)
      → (str_eq s state_not_found ≡ true → host.registered h n ≡ false)
      → Deletes n h1 (remove_vm (world_client w u) n s r0 h).1
      → host.registered h1 n ≡ false
  unfolding remove_vm unregister_vm
  remove_vm_order n s r0 h h1 known d = elim (Bool-cases (str_eq s state_not_found)) [
    | inl absent ↦ remove_files_order n r0 h h1 (known absent) (rw absent at d)
    | inr present ↦ go _ refl (rw present at d)
  ]
    where
      go :
          (x : Returns String)
          → w.run_cli h "vm.destroy" (base_flags u) (some (n ∷ [])) ≡ x
          → Deletes n h1
              ((do
                (result, err) ← unregister_vm (world_client w u) n
                check err (logged "destroy VM" result) (remove_files (world_client w u) n result))
                h).1
          → host.registered h1 n ≡ false
      go (t, some e) q d = ground (arith, q, d)
      go (t, none) q d =
          remove_files_order n t (destroying u n ∷ h) h1 (host.destroyed h n (ground (arith, q)))
            (rw q at d)

  stopping_is_no_deletion :
      (n : String) (e : Error) (h h1 : History)
      → ¬ Deletes n h1 (log_error "govc" "stopping VM" e ∷ powering_off u n ∷ h)
  unfolding complaint
  stopping_is_no_deletion n e h h1 (inl p) = ground (arith, p)
  stopping_is_no_deletion n e h h1 (inr (e', p)) =
      false≢true (sym (ap (λ k. str_eq (complaint k) "stopping VM") p))

  -- On a host that keeps the laws of `Host`: whatever `DestroyVM` returns, if it went so far as to delete what is called as the machine, then
  -- the host had the machine registered no more when it did.
  pub destroy_vm-registered :
      (n : String) (h h1 : History)
      → Deletes n h1 (destroy_vm (world_client w u) n h).1
      → host.registered h1 n ≡ false
  unfolding destroy_vm stop_vm
  destroy_vm-registered n h h1 d = go _ refl
    where
      stop :
          (s : String) (x : Returns String)
          → ¬ (str_eq s state_not_found ≡ true)
          → w.run_cli (info u n ∷ h) "vm.power" (("off", "true") ∷ base_flags u) (some (n ∷ [])) ≡ x
          → Deletes n h1
              ((do
                (result, err) ← stop_vm (world_client w u) n
                check err (logged "stopping VM" result) (remove_vm (world_client w u) n s result))
                (info u n ∷ h)).1
          → host.registered h1 n ≡ false
      stop s (t, some e) found q d =
          absurd (stopping_is_no_deletion n e (info u n ∷ h) h1 (rw q at d))
      stop s (t, none) found q d =
          remove_vm_order n s t (powering_off u n ∷ info u n ∷ h) h1
            (λ absent. absurd (found absent)) (rw q at d)

      go :
          (x : Exit (Returns String) × History)
          → vm_state (world_client w u) n h ≡ x
          → host.registered h1 n ≡ false
      go (panicked k, h2) q = ground (arith, q, d, vm_state_history n h, ap (λ y. y.1) q)
      go (looping, h2) q = ground (arith, q, d, vm_state_history n h, ap (λ y. y.1) q)
      go (returned (s, some e), h2) q = ground (arith, q, d, vm_state_history n h, ap (λ y. y.1) q)
      go (returned (s, none), h2) q =
          let (a, k) = vm_state_lem w u host n h q in
          elim (Bool-cases (str_eq s state_power_on)) [
            | inl on ↦
                stop s _ (on_is_found w u host s on) refl
                  (rw (on, ap (λ y. y.1) q ∙ a) at (rw (q, ◌>>=◌) at d))
            | inr off ↦
                remove_vm_order n s "" h2 h1
                  (λ absent. ground (arith, a, k, absent, host.registered-info h n n))
                  (rw (off, ap (λ y. y.1) q) at (rw (q, ◌>>=◌) at d))
          ]
