-- ===== src/Govc/Removal.antt =====
-- govc/govc_client.go: `HasVM`, `DestroyVM` and `DestroyDisk` against the host.
use bosh_esxi_cpi_release.Prelude.{
  String, Bool, true, false, not, none, some, List, [], ◌∷◌, ◌≡◌, refl, arith, inl, inr, Bool-cases,
  ◌≢◌, sym, ap, ◌∙◌, str_eq, str_eq_iff,
}
use bosh_esxi_cpi_release.Go.World.{History, World, Returns}
use bosh_esxi_cpi_release.Go.Monad.{Exit, returned, panicked, looping, ◌>>=◌, check, logged}
use bosh_esxi_cpi_release.Govc.Answers.{
  state_of, path_found, state_not_found, state_power_on, VirtualMachine,
}
use bosh_esxi_cpi_release.Govc.Answers.Search.{path_found_iff}
use bosh_esxi_cpi_release.Govc.Commands.{delete_datastore_object, stop_vm, unregister_vm}
use bosh_esxi_cpi_release.Govc.Lookups.{vm_state, datastore_path_exists}
use bosh_esxi_cpi_release.Govc.Client.{has_vm, destroy_vm, remove_vm, remove_files}
use bosh_esxi_cpi_release.Govc.Oracle.{world_client}
use bosh_esxi_cpi_release.Govc.Host.{
  Host, is_empty, base_flags, info, listing, destroying, powering_off,
}

pub state_of-not_found :
    (vs : List VirtualMachine) → str_eq (state_of vs) state_not_found ≡ is_empty vs
unfolding state_of
state_of-not_found [] = refl
state_of-not_found (v ∷ vs) = elim (Bool-cases v.runtime.question) [
  | inl e ↦ rw e
  | inr e ↦ elim (Bool-cases (str_eq v.runtime.power_state "poweredOn")) [
    | inl on ↦ rw (e, on)
    | inr off ↦ rw (e, off)
  ]
]

different : ◌≢◌ {A = String} state_power_on state_not_found
different e = cc (ap (λ s. str_eq s state_not_found) e)

module _ (w : World) (u : String) (host : Host w u) where
  pub vm_state_lem :
      (n : String) (h : History) {s : String} {h' : History}
      → vm_state (world_client w u) n h ≡ (returned (s, none), h')
      → (h' ≡ info u n ∷ h) × (str_eq s state_not_found ≡ not (host.registered h n))
  unfolding vm_state
  vm_state_lem n h {s} {h'} e = go _ refl
    where
      go :
          (r : Returns String)
          → w.run_cli h "vm.info" (base_flags u) (some (n ∷ [])) ≡ r
          → (h' ≡ info u n ∷ h) × (str_eq s state_not_found ≡ not (host.registered h n))
      go (t, some x) q = ground (arith, q)
      go (t, none) q =
          let (vs, a, b) = host.info_answer h n t q in
          ground (arith, q, a, b, state_of-not_found vs)

  pub bool_eq : (b c : Bool) → (b ≡ true → c ≡ true) → (c ≡ true → b ≡ true) → b ≡ c
  bool_eq b c f g = ground arith

  pub datastore_path_exists_lem :
      (p : String) (h : History) {b : Bool} {h' : History}
      → datastore_path_exists (world_client w u) p h ≡ (returned (b, none), h')
      → (h' ≡ listing u ∷ h) × (b ≡ host.stored h p)
  unfolding datastore_path_exists
  datastore_path_exists_lem p h {b} {h'} e = go _ refl
    where
      go :
          (r : Returns String)
          → w.run_cli h "datastore.ls" (base_flags u) none ≡ r
          → (h' ≡ listing u ∷ h) × (b ≡ host.stored h p)
      go (t, some x) q = ground (arith, q)
      go (t, none) q =
          let (fs, rest, a, k) = host.listing_answer h t q in
          let same : path_found p fs ≡ host.stored h p =
            bool_eq _ _ (λ f. (k p).0 ((path_found_iff p fs).0 f))
              (λ s. (path_found_iff p fs).1 ((k p).1 s)) in
          ground (arith, q, a, same)

  -- What holds of a machine that is gone.
  abbrev pub IsGone : String → History → Type 0
  IsGone n h = (host.registered h n ≡ false) × (host.stored h n ≡ false)

  remove_files_lem :
      (n r0 : String) (h : History) {r : String} {h' : History}
      → host.registered h n ≡ false
      → remove_files (world_client w u) n r0 h ≡ (returned (r, none), h')
      → IsGone n h'
  unfolding remove_files delete_datastore_object
  remove_files_lem n r0 h {r} {h'} gone e = go _ refl
    where
      go :
          (x : Exit (Returns Bool) × History)
          → datastore_path_exists (world_client w u) n h ≡ x
          → IsGone n h'
      go (panicked k, h1) q = ground (arith, q)
      go (looping, h1) q = ground (arith, q)
      go (returned (b, some x), h1) q = ground (arith, q)
      go (returned (b, none), h1) q =
          let (a, k) = datastore_path_exists_lem n h q in
          ground (
            arith,
            q,
            a,
            k,
            host.registered-listing h n,
            host.stored-listing h n,
            host.removed (listing u ∷ h) n,
            host.registered-removing (listing u ∷ h) n n,
          )

  remove_vm_lem :
      (n s r0 : String) (h : History) {r : String} {h' : History}
      → (str_eq s state_not_found ≡ true → host.registered h n ≡ false)
      → remove_vm (world_client w u) n s r0 h ≡ (returned (r, none), h')
      → IsGone n h'
  unfolding remove_vm unregister_vm
  remove_vm_lem n s r0 h {r} {h'} known e = elim (Bool-cases (str_eq s state_not_found)) [
    | inl absent ↦ remove_files_lem n r0 h (known absent) (rw absent at e)
    | inr present ↦ go _ refl (rw present at e)
  ]
    where
      go :
          (x : Returns String)
          → w.run_cli h "vm.destroy" (base_flags u) (some (n ∷ [])) ≡ x
          → (do
            (result, err) ← unregister_vm (world_client w u) n
            check err (logged "destroy VM" result) (remove_files (world_client w u) n result))
              h
            ≡ (returned (r, none), h')
          → IsGone n h'
      go (t, some x) q p = ground (arith, q)
      go (t, none) q p =
          remove_files_lem n t (destroying u n ∷ h) (host.destroyed h n (ground (arith, q)))
            (rw q at p)

  pub on_is_found :
      (s : String) → str_eq s state_power_on ≡ true → ¬ (str_eq s state_not_found ≡ true)
  on_is_found s on absent =
      different (sym ((str_eq_iff s state_power_on).0 on) ∙ (str_eq_iff s state_not_found).0 absent)

  -- On a host that keeps the laws of `Host`: after `DestroyVM` has returned without an error, the
  -- host has the machine registered no more,
  -- and no file or folder of its name is left in the datastore.
  pub destroy_vm-IsGone :
      (n : String) (h : History) {r : String} {h' : History}
      → destroy_vm (world_client w u) n h ≡ (returned (r, none), h')
      → IsGone n h'
  unfolding destroy_vm stop_vm
  destroy_vm-IsGone n h {r} {h'} e = go _ refl
    where
      stop :
          (s : String) (x : Returns String)
          → ¬ (str_eq s state_not_found ≡ true)
          → w.run_cli (info u n ∷ h) "vm.power" (("off", "true") ∷ base_flags u) (some (n ∷ [])) ≡ x
          → (do
            (result, err) ← stop_vm (world_client w u) n
            check err (logged "stopping VM" result) (remove_vm (world_client w u) n s result))
              (info u n ∷ h)
            ≡ (returned (r, none), h')
          → IsGone n h'
      stop s (t, some x) found q p = ground (arith, q)
      stop s (t, none) found q p =
          remove_vm_lem n s t (powering_off u n ∷ info u n ∷ h) (λ absent. absurd (found absent))
            (rw q at p)

      go : (x : Exit (Returns String) × History) → vm_state (world_client w u) n h ≡ x → IsGone n h'
      go (panicked k, h1) q = ground (arith, q)
      go (looping, h1) q = ground (arith, q)
      go (returned (s, some x), h1) q = ground (arith, q)
      go (returned (s, none), h1) q =
          let (a, k) = vm_state_lem n h q in
          elim (Bool-cases (str_eq s state_power_on)) [
            | inl on ↦
                stop s _ (on_is_found s on) refl
                  (rw (on, ap (λ x. x.1) q ∙ a) at (rw (q, ◌>>=◌) at e))
            | inr off ↦
                remove_vm_lem n s "" h1
                  (λ absent. ground (arith, a, k, absent, host.registered-info h n n))
                  (rw (off, ap (λ x. x.1) q) at (rw (q, ◌>>=◌) at e))
          ]

  -- On a host that keeps the laws of `Host`: where `HasVM` returns without an error, it answers whether the host has the machine registered, and only asks for it.
  pub has_vm_lem :
      (n : String) (h : History) {b : Bool} {h' : History}
      → has_vm (world_client w u) n h ≡ (returned (b, none), h')
      → (b ≡ host.registered h n) × (h' ≡ info u n ∷ h)
  unfolding has_vm
  has_vm_lem n h {b} {h'} e = go _ refl
    where
      go :
          (x : Exit (Returns String) × History)
          → vm_state (world_client w u) n h ≡ x
          → (b ≡ host.registered h n) × (h' ≡ info u n ∷ h)
      go (panicked k, h1) q = ground (arith, q)
      go (looping, h1) q = ground (arith, q)
      go (returned (s, some x), h1) q = ground (arith, q)
      go (returned (s, none), h1) q = let (a, k) = vm_state_lem n h q in ground (arith, q, a, k)
