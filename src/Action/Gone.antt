-- ===== src/Action/Gone.antt =====
-- action/delete_vm.go, action/delete_stemcell.go and action/has_vm.go over the client of govc and a
-- host: what is left on the host.
use bosh_esxi_cpi_release.Prelude.{ℕ, String, ◌<>◌, Bool, none, some, ◌≡◌, refl, arith}
use bosh_esxi_cpi_release.Go.World.{World, print_error, log_message, History, Returns}
use bosh_esxi_cpi_release.Go.Monad.{Exit, returned, panicked, looping}
use bosh_esxi_cpi_release.Go.Inversion.{passed_last}
use bosh_esxi_cpi_release.Govc.Api.{GovcClient}
use bosh_esxi_cpi_release.Govc.Client.{new_client, destroy_vm, destroy_disk}
use bosh_esxi_cpi_release.Govc.Client as Govc
use bosh_esxi_cpi_release.Govc.Oracle.{world_client}
use bosh_esxi_cpi_release.Govc.Host.{Host}
use bosh_esxi_cpi_release.Govc.Removal.{IsGone, destroy_vm-IsGone, has_vm_lem}
use bosh_esxi_cpi_release.Action.Vms.{delete_vm, has_vm}
use bosh_esxi_cpi_release.Action.Stemcells.{delete_stemcell}

-- The client of the CPI over a world.
abbrev pub over_world : World → String → ℕ → ℕ → GovcClient
over_world w u rounds turn = new_client (world_client w u) rounds turn

module _ (w : World) (u : String) (rounds turn : ℕ) (host : Host w u) where
  -- On a host that keeps the laws of `Host`: after `DeleteVM` has returned without an error, the host has no machine registered by the name
  -- made of the CID, and nothing of that name lies in the datastore.
  pub delete_vm-IsGone :
      (cid : String) (h : History) {h' : History}
      → delete_vm (record { govc_client = over_world w u rounds turn }) cid h ≡ (returned none, h')
      → IsGone w u host ("vm-" <> cid) h'
  unfolding delete_vm
  delete_vm-IsGone cid h e =
      let (t, q) = passed_last (destroy_vm (world_client w u) ("vm-" <> cid)) print_error h e in
      destroy_vm-IsGone w u host ("vm-" <> cid) h q

  -- On a host that keeps the laws of `Host`: after `DeleteStemcell` has returned without an error, the host has no machine registered by the
  -- name that `CreateStemcell` imports the stemcell of this CID under, and nothing of that name lies
  -- in the datastore.
  pub delete_stemcell-IsGone :
      (cid : String) (h : History) {h' : History}
      → delete_stemcell (record { govc_client = over_world w u rounds turn }) cid h
        ≡ (returned none, h')
      → IsGone w u host ("cs-" <> cid) h'
  unfolding delete_stemcell
  delete_stemcell-IsGone cid h e =
      let (t, q) =
        passed_last (destroy_vm (world_client w u) ("cs-" <> cid))
          (λ _. log_message "delete-stemcell" ("failed to delete stemcell. cid: " <> cid)) h e in
      destroy_vm-IsGone w u host ("cs-" <> cid) h q

  -- `HasVM` of the CPI answers whether the host has the machine of this CID registered.
  pub has_vm-registered :
      (cid : String) (h : History) {b : Bool} {h' : History}
      → has_vm (record { govc_client = over_world w u rounds turn }) cid h
        ≡ (returned (b, none), h')
      → b ≡ host.registered h ("vm-" <> cid)
  unfolding has_vm
  has_vm-registered cid h {b} {h'} e = go _ refl
    where
      go :
          (x : Exit (Returns Bool) × History)
          → Govc.has_vm (world_client w u) ("vm-" <> cid) h ≡ x
          → b ≡ host.registered h ("vm-" <> cid)
      go (panicked k, h1) q = ground (arith, q)
      go (looping, h1) q = ground (arith, q)
      go (returned (c, some d), h1) q = ground (arith, q)
      go (returned (c, none), h1) q = ground (arith, q, has_vm_lem w u host ("vm-" <> cid) h q)
