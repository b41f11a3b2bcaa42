-- ===== src/Action/Stemcells.antt =====
-- action/create_stemcell.go and action/delete_stemcell.go.
pub mod Imported
use bosh_esxi_cpi_release.Prelude.{String, ◌<>◌, Option, none, some}
use bosh_esxi_cpi_release.Go.World.{Error, generate_uuid, debug_log, log_message, World, Returns}
use bosh_esxi_cpi_release.Go.Monad.{M, pure, ask, tell, ◌>>=◌, ◌>>◌, check}
use bosh_esxi_cpi_release.Govc.Api.{GovcClient}
use bosh_esxi_cpi_release.Stemcell.Client.{StemcellClient}

pub record CreateStemcellMethod : Type 0 where
  pub govc_client : GovcClient
  pub stemcell_client : StemcellClient

-- The CID that is returned is the UUID; the VM's name is made of it.
unfoldable pub create_stemcell : World → CreateStemcellMethod → String → M (Returns String)
create_stemcell w c image_path = do
  (stemcell_uuid, _) ← ask generate_uuid w.uuid
  let stemcell_id = "cs-" <> stemcell_uuid
  tell (debug_log "cpi" ("ImagePath: " <> image_path))
  (ovf_path, err) ← c.stemcell_client.extract_ovf image_path
  check err (λ e. pure (stemcell_uuid, some e))
      do
        (_, err) ← c.govc_client.import_ovf ovf_path stemcell_id
        check err (λ e. pure (stemcell_uuid, some e))
            do c.stemcell_client.cleanup; pure (stemcell_uuid, none)

pub record DeleteStemcellMethod : Type 0 where
  pub govc_client : GovcClient

unfoldable pub delete_stemcell : DeleteStemcellMethod → String → M (Option Error)
delete_stemcell c stemcell_cid = do
  let stemcell_id = "cs-" <> stemcell_cid
  (_, err) ← c.govc_client.destroy_vm stemcell_id
  check err
      (λ e. do
        tell (log_message "delete-stemcell" ("failed to delete stemcell. cid: " <> stemcell_cid))
        pure (some e))
      (pure none)
