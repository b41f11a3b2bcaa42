-- ===== src/Govc/Api.antt =====
-- govc/govc.go: the interfaces between the actions, the client, the command runner and the
-- configuration.
use bosh_esxi_cpi_release.Prelude.{String, Bool, Option, List}
use bosh_esxi_cpi_release.Prelude.Int.{ℤ}
use bosh_esxi_cpi_release.Go.World.{Error, Flags, Returns}
use bosh_esxi_cpi_release.Go.Monad.{M}

pub record GovcRunner : Type 0 where
  pub cli_command : String → Flags → Option (List String) → M (Returns String)

pub record GovcConfig : Type 0 where
  pub esx_url : M String

pub record GovcClient : Type 0 where
  pub import_ovf : String → String → M (Returns String)
  pub clone_vm : String → String → M (Returns String)
  pub update_vm_iso : String → String → M (Returns String)
  pub start_vm : String → M (Returns String)
  pub has_vm : String → M (Returns Bool)
  pub set_vm_network_adapter : String → String → String → M (Option Error)
  pub set_vm_resources : String → ℤ → ℤ → M (Option Error)
  pub create_ephemeral_disk : String → ℤ → M (Option Error)
  pub create_disk : String → ℤ → M (Option Error)
  pub attach_disk : String → String → M (Option Error)
  pub detach_disk : String → String → M (Option Error)
  pub destroy_disk : String → M (Option Error)
  pub destroy_vm : String → M (Returns String)

-- The fields of `GovcClientImpl`; its logger is the events `log_error`.
pub record GovcClientImpl : Type 0 where
  pub runner : GovcRunner
  pub config : GovcConfig
