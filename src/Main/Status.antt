-- ===== src/Main/Status.antt =====
-- main/main.go: when the program exits with the status 0.
use bosh_esxi_cpi_release.Prelude.{ℕ, String, Option, none, some, ◌≡◌, arith, ◌⊎◌, inl, inr}
use bosh_esxi_cpi_release.Go.World.{Error, log_message, World, History}
use bosh_esxi_cpi_release.Go.Monad.{returned, M, pure, tell, ◌>>=◌, ◌>>◌, check}
use bosh_esxi_cpi_release.Go.Inversion.{passed_value}
use bosh_esxi_cpi_release.Json.Decode.{Decoder}
use bosh_esxi_cpi_release.Apiv1.{Apiv1}
use bosh_esxi_cpi_release.Config.Load.{Config, new_config_from_path}
use bosh_esxi_cpi_release.Config.Esx.{new_govc_config}
use bosh_esxi_cpi_release.Govc.Api.{GovcRunner}
use bosh_esxi_cpi_release.Govc.Client as Govc
use bosh_esxi_cpi_release.Stemcell.Client as Stemcell
use bosh_esxi_cpi_release.Vm.Settings.{AgentSettingsImpl, new_agent_settings, agent_settings}
use bosh_esxi_cpi_release.Action.Factory.{Cpi, Factory, new}
use bosh_esxi_cpi_release.Main.{serve_once, main}

-- What follows `ServeOnce`.
exit_status : Option Error → M ℕ
exit_status r = check r (λ d. tell (log_message "main" "Serving once") >> pure 1) (pure 0)

module _ (api : Apiv1) (decode_agent : Decoder api.AgentOptions) (zero_agent : api.AgentOptions)
    (w : World) (runner : GovcRunner) (serve : Cpi api → M (Option Error)) (rounds turn : ℕ) where
  -- The parts of the program, put together.
  abbrev pub assembled : Config api.AgentOptions → AgentSettingsImpl → Factory api
  assembled config settings = record {
    govc_client =
        Govc.new_client (record { runner = runner; config = new_govc_config config }) rounds turn;
    stemcell_client = Stemcell.stemcell_client w Stemcell.new_client;
    agent_settings = agent_settings api w settings;
    config = config;
  }

  -- What a run with the status 0 has done.
  pub record Served (path : String) (h h' : History) : Type 0 where
    pub config : Config api.AgentOptions
    pub settings : AgentSettingsImpl
    pub loaded : History
    pub prepared : History
    pub loads :
        new_config_from_path decode_agent zero_agent w path h ≡ (returned (inr config), loaded)
    pub prepares : new_agent_settings api w loaded ≡ (returned settings, prepared)
    pub serves : serve (new api w (assembled config settings)) prepared ≡ (returned none, h')

  serve_once-Served :
      (config : Config api.AgentOptions) (h : History) {h' : History}
      → serve_once api decode_agent zero_agent w runner serve rounds turn config h
        ≡ (returned 0, h')
      → (settings : AgentSettingsImpl) × (prepared : History) × (new_agent_settings api w h
          ≡ (returned settings, prepared))
        × (serve (new api w (assembled config settings)) prepared ≡ (returned none, h'))
  unfolding serve_once exit_status
  serve_once-Served config h {h'} e =
      let (settings, h1, p, e1) =
        passed_value (new_agent_settings api w)
          (λ s. serve (new api w (assembled config s)) >>= exit_status) h e in
      let (r, h2, q, e2) =
        passed_value (serve (new api w (assembled config settings))) exit_status h1 e1 in
      (settings, h1, p, last (serve (new api w (assembled config settings))) h1 r h2 q e2)
    where
      last :
          (m : M (Option Error)) (h1 : History) (r : Option Error) (h2 : History)
          → m h1 ≡ (returned r, h2)
          → exit_status r h2 ≡ (returned 0, h')
          → m h1 ≡ (returned none, h')
      last m h1 (some d) h2 q e2 = ground (arith, e2)
      last m h1 none h2 q e2 = ground (arith, q, e2)

  -- If the program exits with the status 0, it has read the configuration without an error, and has
  -- served the request without an error, with a CPI that is put together from this configuration and
  -- from a new directory for the agent's settings.
  pub main-Served :
      (path : String) (h : History) {h' : History}
      → main api decode_agent zero_agent w runner serve rounds turn path h ≡ (returned 0, h')
      → Served path h h'
  unfolding main
  main-Served path h {h'} e =
      let (x, h1, p, e1) =
        passed_value (new_config_from_path decode_agent zero_agent w path) (λ x. after x) h e in
      go x h1 p e1
    where
      after : Error ⊎ Config api.AgentOptions → M ℕ
      after x = elim x [
        | inl d ↦ tell (log_message "main" "Loading cfg") >> pure 1
        | inr config ↦ serve_once api decode_agent zero_agent w runner serve rounds turn config
      ]

      go :
          (x : Error ⊎ Config api.AgentOptions) (h1 : History)
          → new_config_from_path decode_agent zero_agent w path h ≡ (returned x, h1)
          → after x h1 ≡ (returned 0, h')
          → Served path h h'
      go (inl d) h1 p e1 = ground (arith, e1)
      go (inr config) h1 p e1 =
          let (settings, h2, q, r) = serve_once-Served config h1 e1 in
          record {
            config = config;
            settings = settings;
            loaded = h1;
            prepared = h2;
            loads = p;
            prepares = q;
            serves = r;
          }
