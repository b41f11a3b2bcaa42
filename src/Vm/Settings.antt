-- ===== src/Vm/Settings.antt =====
-- vm/vm.go and vm/agent_settings.go: the agent's settings and the ISO image that carries them.
pub mod Shared
use bosh_esxi_cpi_release.Prelude.{String, ◌<>◌, none, some, str_eq, if◌then◌else◌}
use bosh_esxi_cpi_release.Go.World.{
  wrapped, read_file, write_file, temp_dir, open_file, close_file, remove_all, write_iso,
  log_message, World, Returns,
}
use bosh_esxi_cpi_release.Go.Monad.{M, pure, panic, ask, tell, ◌>>=◌, ◌>>◌, check}
use bosh_esxi_cpi_release.Apiv1.{Apiv1}
use bosh_esxi_cpi_release.Vm.Mac.{generate_mac_address}

-- The interface of vm/vm.go.
pub record AgentSettings (AgentEnv : Type 0) : Type 0 where
  pub cleanup : M (Unit {0})
  pub generate_agent_env_iso : AgentEnv → M (Returns String)
  pub generate_mac_address : M (Returns String)
  pub agent_env_bytes_from_file : M String

-- Its file system and its logger are the world's.
pub record AgentSettingsImpl : Type 0 where
  pub parent_temp_dir : String

abbrev pub env_json : String
env_json = "/tmp/env.json"

-- `filepath.Join` of a directory, as `TempDir` names it, and a file's name.
abbrev pub join : String → String → String
join dir name = if str_eq dir "" then name else dir <> ("/" <> name)

module _ (api : Apiv1) (w : World) where
  -- `NewAgentSettings`. The error of `TempDir` is dropped.
  unfoldable pub new_agent_settings : M AgentSettingsImpl
  new_agent_settings = do
    (dir, _) ←
        ask (temp_dir "agent-settings-env-iso-") (λ h. w.new_temp_dir h "agent-settings-env-iso-")
    pure (record { parent_temp_dir = dir })

  -- The errors of `AsBytes`, `ioutil.WriteFile` and `iso9660wrap.WriteBuffer` are dropped; `defer`
  -- closes the file.
  unfoldable pub generate_agent_env_iso : AgentSettingsImpl → api.AgentEnv → M (Returns String)
  generate_agent_env_iso s agent_env = do
    let (env_bytes, _) = api.as_bytes agent_env
    _ ← ask (write_file env_json env_bytes) (λ h. w.write_fails h env_json env_bytes)
    let env_iso_path = join s.parent_temp_dir "env.iso"
    err ← ask (open_file env_iso_path) (λ h. w.open_fails h env_iso_path)
    check err (λ e. pure ("", some (wrapped e "opening tempfile failed")))
        do
          _ ←
              ask (write_iso env_iso_path env_bytes "ENV")
                (λ h. w.iso_fails h env_iso_path env_bytes "ENV")
          tell (close_file env_iso_path)
          pure (env_iso_path, none)

  unfoldable pub agent_env_bytes_from_file : M String
  agent_env_bytes_from_file = do
    (bytes, err) ← ask (read_file env_json) (λ h. w.file_bytes h env_json)
    check err (λ _. panic "failed to read") (pure bytes)

  unfoldable pub cleanup : AgentSettingsImpl → M (Unit {0})
  cleanup s = do
    err ← ask (remove_all s.parent_temp_dir) (λ h. w.remove_fails h s.parent_temp_dir)
    check err
        (λ _. tell (
          log_message "stemcell-client"
            ("Cleaning up stemcell temp dir '" <> (s.parent_temp_dir <> "'"))))
        (pure tt)

  -- The struct behind its interface.
  abbrev pub agent_settings : AgentSettingsImpl → AgentSettings api.AgentEnv
  agent_settings s = record {
    cleanup = cleanup s;
    generate_agent_env_iso = generate_agent_env_iso s;
    generate_mac_address = generate_mac_address w;
    agent_env_bytes_from_file = agent_env_bytes_from_file;
  }
