-- ===== src/Action/Stemcells/Imported.antt =====
-- action/create_stemcell.go: the calls that a `CreateStemcell` without an error has made, and what
-- it leaves behind in the file system.
use bosh_esxi_cpi_release.Prelude.{
  ℕ, String, ◌<>◌, false, none, some, ◌∷◌, ◌≡◌, sym, ap, arith, str_eq,
}
use bosh_esxi_cpi_release.Go.World.{World, generate_uuid, debug_log, History, Returns}
use bosh_esxi_cpi_release.Go.Monad.{Exit, returned, pure, check, ◌>>=◌, ◌>>◌}
use bosh_esxi_cpi_release.Go.Inversion.{passed, passed_unit}
use bosh_esxi_cpi_release.Govc.Client.{import_ovf}
use bosh_esxi_cpi_release.Govc.Client as Govc
use bosh_esxi_cpi_release.Govc.Oracle.{world_client}
use bosh_esxi_cpi_release.Stemcell.Client.Extraction.{removed, extract_ovf-removed, cleanup-removed}
use bosh_esxi_cpi_release.Stemcell.Client.{stemcell_client, new_client}
use bosh_esxi_cpi_release.Action.Stemcells.{CreateStemcellMethod, create_stemcell}

-- The events when the stemcell is extracted.
abbrev pub logged_path : String → History → History
logged_path image_path h = debug_log "cpi" ("ImagePath: " <> image_path) ∷ generate_uuid ∷ h

-- The calls that imported the stemcell `cid`.
pub record Imported (c : CreateStemcellMethod) (image_path cid : String) (h h' : History)
    : Type 0 where
  pub ovf_path : String
  pub answer : String
  pub extracted : History
  pub imported : History
  pub extracts :
      c.stemcell_client.extract_ovf image_path (logged_path image_path h)
      ≡ (returned (ovf_path, none), extracted)
  pub imports :
      c.govc_client.import_ovf ovf_path ("cs-" <> cid) extracted
      ≡ (returned (answer, none), imported)
  pub cleans : c.stemcell_client.cleanup imported ≡ (returned tt, h')

-- A `CreateStemcell` that returns without an error returns the generated UUID as the stemcell's CID;
-- it has extracted the image, imported what was extracted as a machine named after the CID, and
-- cleaned up, in this order, and the first two without an error.
pub create_stemcell-Imported :
    (w : World) (c : CreateStemcellMethod) (image_path : String) (h : History) {cid : String}
    {h' : History}
    → create_stemcell w c image_path h ≡ (returned (cid, none), h')
    → (cid ≡ (w.uuid h).0) × Imported c image_path cid h h'
unfolding create_stemcell
create_stemcell-Imported w c image_path h {cid} {h'} e =
    let id = (w.uuid h).0 in
    let (ovf_path, h1, p1, e1) =
      passed id (c.stemcell_client.extract_ovf image_path)
        (λ p. c.govc_client.import_ovf p ("cs-" <> id) >>= λ r.
          check r.1 (λ d. pure (id, some d)) (c.stemcell_client.cleanup >> pure (id, none)))
        (logged_path image_path h) e in
    let (answer, h2, p2, e2) =
      passed id (c.govc_client.import_ovf ovf_path ("cs-" <> id))
        (λ _. c.stemcell_client.cleanup >> pure (id, none)) h1 e1 in
    let (h3, p3, e3) = passed_unit c.stemcell_client.cleanup (pure (id, none)) h2 e2 in
    let q : id ≡ cid = ground (arith, e3) in
    let r : h3 ≡ h' = ground (arith, e3) in
    let here : Imported c image_path id h h3 = record {
      ovf_path = ovf_path;
      answer = answer;
      extracted = h1;
      imported = h2;
      extracts = p1;
      imports = p2;
      cleans = p3;
    } in
    (sym q, rw q at rw r at here)

module _ (w : World) (u : String) (rounds turn : ℕ) where
  -- The method over the world's commands and its file system.
  abbrev pub over_world : CreateStemcellMethod
  over_world = record {
    govc_client = Govc.new_client (world_client w u) rounds turn;
    stemcell_client = stemcell_client w new_client;
  }

  import_ovf-removed :
      (d path name : String) (h : History)
      → removed d (import_ovf (world_client w u) path name h).1 ≡ removed d h
  unfolding import_ovf
  import_ovf-removed d path name h = ground arith

  -- With the client of govc and the stemcell client that `NewClient` makes: a `CreateStemcell` that
  -- returns without an error has removed no directory that has a name, and so not the one into which
  -- it unpacked the image.
  pub create_stemcell-removed :
      (image_path d : String) (h : History) {cid : String} {h' : History}
      → create_stemcell w over_world image_path h ≡ (returned (cid, none), h')
      → str_eq "" d ≡ false
      → removed d h' ≡ removed d h
  create_stemcell-removed image_path d h {cid} e named =
      let (q, b) = create_stemcell-Imported w over_world image_path h e in
      let after = λ (x : Exit (Unit {0}) × History). removed d x.1 in
      let later = λ (x : Exit (Returns String) × History). removed d x.1 in
      cc (
        ap after b.cleans,
        ap later b.imports,
        ap later b.extracts,
        cleanup-removed w new_client d b.imported,
        import_ovf-removed d b.ovf_path ("cs-" <> cid) b.extracted,
        extract_ovf-removed w new_client image_path d (logged_path image_path h),
      )
