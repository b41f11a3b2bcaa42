-- ===== src/Govc/Oracle.antt =====
-- The client over the world: each command is an event, and the world answers it.
use bosh_esxi_cpi_release.Prelude.{String}
use bosh_esxi_cpi_release.Go.World.{World, cli}
use bosh_esxi_cpi_release.Go.Monad.{pure, ask}
use bosh_esxi_cpi_release.Govc.Api.{GovcRunner, GovcClientImpl}

abbrev pub world_runner : World → GovcRunner
world_runner w = record {
  cli_command =
      λ command flags args. ask (cli command flags args) (λ h. w.run_cli h command flags args);
}

-- A runner that asks the world, and a configuration whose URL is `u`.
abbrev pub world_client : World → String → GovcClientImpl
world_client w u = record { runner = world_runner w; config = record { esx_url = pure u } }
