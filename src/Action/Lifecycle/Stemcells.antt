-- ===== src/Action/Lifecycle/Stemcells.antt =====
-- action/create_stemcell.go and action/factory.go over a host: the life of a stemcell.
use bosh_esxi_cpi_release.Prelude.{◌∙◌, ℕ, String, ◌<>◌, Bool, true, ◌≡◌, arith, none, List}
use bosh_esxi_cpi_release.Go.World.{World, History}
use bosh_esxi_cpi_release.Go.Monad.{returned}
use bosh_esxi_cpi_release.Go.Avoids.{Grows-weaken, Grows-by}
use bosh_esxi_cpi_release.Apiv1.{Apiv1}
use bosh_esxi_cpi_release.Config.Load.{Config}
use bosh_esxi_cpi_release.Vm.Settings.{AgentSettingsImpl}
use bosh_esxi_cpi_release.Stemcell.Client.{StemcellClientImpl}
use bosh_esxi_cpi_release.Govc.Client.{import_ovf, has_vm}
use bosh_esxi_cpi_release.Govc.Oracle.{world_client}
use bosh_esxi_cpi_release.Govc.Deletions.{is_name, deletes-any_lem}
use bosh_esxi_cpi_release.Govc.Host.{Host}
use bosh_esxi_cpi_release.Govc.Registering.{Registering}
use bosh_esxi_cpi_release.Govc.Removal.{has_vm_lem}
use bosh_esxi_cpi_release.Action.Sparing.Laws.{stemcell_client-StemcellSpares}
use bosh_esxi_cpi_release.Action.Stemcells.Imported.{create_stemcell-Imported}
use bosh_esxi_cpi_release.Action.Factory.{new}
use bosh_esxi_cpi_release.Action.Requests.{Request, after_all, all_leave_stemcell, cpi_over}
use bosh_esxi_cpi_release.Action.Requests.Kept.{
  all_leave_stemcell-named, after_all-Grows, registered-Grows,
}
use bosh_esxi_cpi_release.Action.Lifecycle.{cpi_over-CpiSpares}

module _ (api : Apiv1) (w : World) (u : String) (rounds turn : ℕ) (settings : AgentSettingsImpl)
    (stemcells : StemcellClientImpl) (config : Config api.AgentOptions) (host : Host w u)
    (laws : Registering w u host) where
  import_ovf-registered :
      (path name : String) (h : History) {t : String} {h' : History}
      → is_name name ≡ true
      → import_ovf (world_client w u) path name h ≡ (returned (t, none), h')
      → host.registered h' name ≡ true
  unfolding import_ovf
  import_ovf-registered path name h plain e = grind (arith, e, plain, laws.imports)

  create_stemcell-registered :
      (image_path : String) (h : History) {cid : String} {h' : History}
      → (cpi_over api w u rounds turn settings stemcells config).create_stemcell image_path h
        ≡ (returned (cid, none), h')
      → is_name ("cs-" <> cid) ≡ true
      → host.registered h' ("cs-" <> cid) ≡ true
  unfolding new
  create_stemcell-registered image_path h {cid} e plain =
      let (q, b) = create_stemcell-Imported w _ image_path h e in
      let g = Grows-by (stemcell_client-StemcellSpares w stemcells).cleans b.cleans in
      registered-Grows w u host laws ("cs-" <> cid) (Grows-weaken (deletes-any_lem _) g)
        (import_ovf-registered b.ovf_path ("cs-" <> cid) b.extracted plain b.imports)

  -- On a host that keeps the laws of `Host` and of `Registering`: once `CreateStemcell` has returned
  -- a CID without an error, whose machine's name govc reads as one name, and after any further
  -- requests to the CPI, whatever they return, none of which is a `DeleteStemcell` of this CID or a
  -- deletion for a CID whose name govc does not read as one name, the machine from which `CreateVM`
  -- clones the stemcell is still there: if the client's `HasVM` of it returns without an error, it
  -- answers that it exists.
  pub create_stemcell-has_vm :
      (image_path : String) (h : History) {cid : String} {h1 h2 : History} {found : Bool}
      → (cpi_over api w u rounds turn settings stemcells config).create_stemcell image_path h
        ≡ (returned (cid, none), h1)
      → is_name ("cs-" <> cid) ≡ true
      → (requests : List (Request api)) → all_leave_stemcell api cid requests ≡ true
      → has_vm
          (world_client w u)
          ("cs-" <> cid)
          (after_all api (cpi_over api w u rounds turn settings stemcells config) requests h1)
        ≡ (returned (found, none), h2)
      → found ≡ true
  create_stemcell-has_vm image_path h {cid} e plain requests p k =
      let cpi = cpi_over api w u rounds turn settings stemcells config in
      (has_vm_lem w u host ("cs-" <> cid) _ k).0
      ∙ registered-Grows w u host laws ("cs-" <> cid)
          (after_all-Grows api cpi
            (cpi_over-CpiSpares api w u rounds turn settings stemcells config) ("cs-" <> cid)
            requests _ (all_leave_stemcell-named api cid requests plain p))
          (create_stemcell-registered image_path h e plain)
