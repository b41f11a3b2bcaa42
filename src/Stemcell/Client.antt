-- ===== src/Stemcell/Client.antt =====
-- stemcell/stemcell.go and stemcell/stemcell_client.go. The methods have value receivers: what
-- `ExtractOvf` assigns to `c.parentTempDir` it assigns to its own copy of the struct.
pub mod Extraction
use bosh_esxi_cpi_release.Prelude.{String, ◌<>◌, not, none, some, if◌then◌else◌}
use bosh_esxi_cpi_release.Go.World.{
  message, wrapped, file_exists, temp_dir, remove_all, decompress, log_message, World, Returns,
}
use bosh_esxi_cpi_release.Go.Monad.{M, pure, ask, tell, ◌>>=◌, check}
use bosh_esxi_cpi_release.Vm.Settings.{join}

pub record StemcellClient : Type 0 where
  pub extract_ovf : String → M (Returns String)
  pub cleanup : M (Unit {0})

pub record StemcellClientImpl : Type 0 where
  pub parent_temp_dir : String

-- `NewClient` leaves `parentTempDir` at its zero value.
abbrev pub new_client : StemcellClientImpl
new_client = record { parent_temp_dir = "" }

module _ (w : World) where
  -- The rest of `ExtractOvf`, on its copy of the struct.
  unfoldable pub unpack : StemcellClientImpl → String → M (Returns String)
  unpack c stemcell_tarball_path = do
    let dir = c.parent_temp_dir
    err ←
        ask (decompress stemcell_tarball_path dir)
          (λ h. w.decompress_fails h stemcell_tarball_path dir)
    check err
        (λ e. pure (
          "",
          some (
              wrapped e (
                "Unpacking outer stemcell tarball '"
                <> (stemcell_tarball_path <> ("' to '" <> (dir <> "'"))))),
        ))
        (do
          let image_ovf_path = join dir "image.ovf"
          found ← ask (file_exists image_ovf_path) (λ h. w.has_file h image_ovf_path)
          pure (
              if not found
              then ("", some (message "stemcell does not contain 'image.ovf'"))
              else (image_ovf_path, none)))

  unfoldable pub extract_ovf : StemcellClientImpl → String → M (Returns String)
  unfolding unpack
  extract_ovf c stemcell_tarball_path = do
    found ← ask (file_exists stemcell_tarball_path) (λ h. w.has_file h stemcell_tarball_path)
    (if not found then pure ("", some (message "stemcell not found")) else do
      (dir, err) ← ask (temp_dir "stemcell-") (λ h. w.new_temp_dir h "stemcell-")
      check err (λ e. pure ("", some (wrapped e "creating tempdir failed")))
          (unpack (record c { parent_temp_dir = dir }) stemcell_tarball_path))

  unfoldable pub cleanup : StemcellClientImpl → M (Unit {0})
  cleanup c = do
    err ← ask (remove_all c.parent_temp_dir) (λ h. w.remove_fails h c.parent_temp_dir)
    check err
        (λ _. tell (
          log_message "stemcell-client"
            ("Cleaning up stemcell temp dir '" <> (c.parent_temp_dir <> "'"))))
        (pure tt)

  abbrev pub stemcell_client : StemcellClientImpl → StemcellClient
  stemcell_client c = record { extract_ovf = extract_ovf c; cleanup = cleanup c }
