-- ===== src/Main.antt =====
-- main/main.go: the wiring of the parts. `serve` stands for `cli.ServeOnce`, which reads one request
-- from standard input and calls the method of the CPI that it names; the decoding of the agent's
-- options is a parameter too. The result is the exit status.
pub mod Status
use bosh_esxi_cpi_release.Prelude.{ℕ, String, Option, inl, inr}
use bosh_esxi_cpi_release.Go.World.{Error, log_message, World}
use bosh_esxi_cpi_release.Go.Monad.{M, pure, tell, ◌>>=◌, ◌>>◌, check}
use bosh_esxi_cpi_release.Json.Decode.{Decoder}
use bosh_esxi_cpi_release.Apiv1.{Apiv1}
use bosh_esxi_cpi_release.Config.Load.{Config, new_config_from_path}
use bosh_esxi_cpi_release.Config.Esx.{new_govc_config}
use bosh_esxi_cpi_release.Govc.Api.{GovcRunner}
use bosh_esxi_cpi_release.Govc.Client as Govc
use bosh_esxi_cpi_release.Stemcell.Client as Stemcell
use bosh_esxi_cpi_release.Vm.Settings.{new_agent_settings, agent_settings}
use bosh_esxi_cpi_release.Action.Factory.{Cpi, new}

module _ (api : Apiv1) (decode_agent : Decoder api.AgentOptions) (zero_agent : api.AgentOptions)
    (w : World) (runner : GovcRunner) (serve : Cpi api → M (Option Error)) (rounds turn : ℕ) where
  -- After the configuration is read.
  unfoldable pub serve_once : Config api.AgentOptions → M ℕ
  serve_once config = do
    settings ← new_agent_settings api w
    err ← serve (
        new api w (record {
          govc_client =
              Govc.new_client (record { runner = runner; config = new_govc_config config }) rounds
                turn;
          stemcell_client = Stemcell.stemcell_client w Stemcell.new_client;
          agent_settings = agent_settings api w settings;
          config = config;
        }))
    check err (λ e. tell (log_message "main" "Serving once") >> pure 1) (pure 0)

  unfoldable pub main : String → M ℕ
  unfolding serve_once
  main config_path = do
    loaded ← new_config_from_path decode_agent zero_agent w config_path
    elim loaded [
      | inl e ↦ tell (log_message "main" "Loading cfg") >> pure 1
      | inr config ↦ serve_once config
    ]
