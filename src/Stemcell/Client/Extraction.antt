-- ===== src/Stemcell/Client/Extraction.antt =====
-- stemcell/stemcell_client.go: what `ExtractOvf` does where it returns no error, and which
-- directories the client removes.
use bosh_esxi_cpi_release.Prelude.{
  String, Bool, true, false, ◌||◌, none, [], ◌∷◌, ◌≡◌, arith, str_eq,
}
use bosh_esxi_cpi_release.Go.World.{World, remove_all, file_exists, temp_dir, decompress, History}
use bosh_esxi_cpi_release.Go.Monad.{returned}
use bosh_esxi_cpi_release.Vm.Settings.{join}
use bosh_esxi_cpi_release.Stemcell.Client.{StemcellClientImpl, extract_ovf, cleanup}

-- Whether a directory has been removed.
abbrev pub removed : String → History → Bool
removed d [] = false
removed d (remove_all p ∷ h) = str_eq p d || removed d h
removed d (_ ∷ h) = removed d h

module _ (w : World) (c : StemcellClientImpl) where
  -- The directory that `TempDir` answers, and the events of the extraction.
  abbrev pub fresh_dir : String → History → String
  fresh_dir path h = (w.new_temp_dir (file_exists path ∷ h) "stemcell-").0

  abbrev pub unpacked : String → History → History
  unpacked path h = decompress path (fresh_dir path h) ∷ temp_dir "stemcell-" ∷ file_exists path ∷ h

  -- An `ExtractOvf` that returns without an error has found the tarball, unpacked it into the new
  -- temporary directory without an error and found `image.ovf` there, whose path it returns.
  pub extract_ovf-found :
      (path : String) (h : History) {t : String} {h' : History}
      → extract_ovf w c path h ≡ (returned (t, none), h')
      → (t ≡ join (fresh_dir path h) "image.ovf")
        × (h' ≡ file_exists t ∷ unpacked path h)
        × (w.has_file h path ≡ true)
        × (w.decompress_fails (temp_dir "stemcell-" ∷ file_exists path ∷ h) path (fresh_dir path h)
            ≡ none)
        × (w.has_file (unpacked path h) t ≡ true)
  unfolding extract_ovf
  extract_ovf-found path h {t} {h'} e = ground (arith, e)

  -- Whatever `ExtractOvf` returns, it removes nothing.
  pub extract_ovf-removed :
      (path d : String) (h : History) → removed d (extract_ovf w c path h).1 ≡ removed d h
  unfolding extract_ovf
  extract_ovf-removed path d h = ground arith

  pub cleanup-removed :
      (d : String) (h : History)
      → removed d (cleanup w c h).1 ≡ str_eq c.parent_temp_dir d || removed d h
  unfolding cleanup
  cleanup-removed d h = ground arith
