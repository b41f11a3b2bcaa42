-- ===== src/Vm/Settings/Shared.antt =====
-- vm/agent_settings.go: the file of the settings, written and read.
use bosh_esxi_cpi_release.Prelude.{
  String, Bool, true, false, Option, none, some, ◌∷◌, ◌≡◌, refl, arith,
}
use bosh_esxi_cpi_release.Go.World.{
  World, Error, Event, cli, decompress, write_file, open_file, remove_all, write_iso, read_file,
  close_file, History, Returns,
}
use bosh_esxi_cpi_release.Go.Monad.{returned}
use bosh_esxi_cpi_release.Apiv1.{Apiv1}
use bosh_esxi_cpi_release.Vm.Settings.{
  AgentSettingsImpl, env_json, join, generate_agent_env_iso, agent_env_bytes_from_file,
}

-- Whether an event may change what the file at `path` holds, where `same` says which paths may name
-- the same file. A command, an archive that is unpacked and a removal may change any file.
abbrev pub touches : (String → String → Bool) → String → Event → Bool
touches same path (write_file p bytes) = same p path
touches same path (open_file p) = same p path
touches same path (write_iso p bytes label) = same p path
touches same path (remove_all p) = true
touches same path (decompress p dir) = true
touches same path (cli command flags args) = true
touches same path _ = false

-- A file system that no other process writes to: what was written can be read, until something may
-- have touched the file.
pub record Files (w : World) : Type 0 where
  pub same_file : String → String → Bool
  pub wrote :
      (h : History) (path bytes : String)
      → w.write_fails h path bytes ≡ none
      → w.file_bytes (write_file path bytes ∷ h) path ≡ (bytes, none)
  pub kept :
      (h : History) (path : String) (e : Event)
      → touches same_file path e ≡ false
      → w.file_bytes (e ∷ h) path ≡ w.file_bytes h path

module _ (api : Apiv1) (w : World) (files : Files w) (s : AgentSettingsImpl) where
  abbrev pub iso_path : String
  iso_path = join s.parent_temp_dir "env.iso"

  -- On a file system that keeps the laws of `Files`: if the file of the settings can be written, and
  -- the path of the image names another file, then whatever `GenerateAgentEnvIso` returns, the file
  -- holds the bytes of these settings afterwards: the next `AgentEnvBytesFromFile` returns them,
  -- whichever VM it is for.
  pub agent_env_bytes_from_file-generate_agent_env_iso :
      (agent_env : api.AgentEnv) (h : History) {r : Returns String} {h' : History}
      → w.write_fails h env_json (api.as_bytes agent_env).0 ≡ none
      → files.same_file iso_path env_json ≡ false
      → generate_agent_env_iso api w s agent_env h ≡ (returned r, h')
      → agent_env_bytes_from_file api w h'
        ≡ (returned (api.as_bytes agent_env).0, read_file env_json ∷ h')
  unfolding generate_agent_env_iso agent_env_bytes_from_file
  agent_env_bytes_from_file-generate_agent_env_iso agent_env h {r} {h'} ok apart e = go _ refl
    where
      bytes : String
      bytes = (api.as_bytes agent_env).0

      h1 : History
      h1 = write_file env_json bytes ∷ h

      go :
          (x : Option Error)
          → w.open_fails h1 iso_path ≡ x
          → agent_env_bytes_from_file api w h' ≡ (returned bytes, read_file env_json ∷ h')
      go (some d) q = ground (
        arith,
        q,
        ok,
        apart,
        e,
        files.wrote h env_json bytes,
        files.kept h1 env_json (open_file iso_path),
      )
      go none q =
          let h2 = open_file iso_path ∷ h1 in
          let h3 = write_iso iso_path bytes "ENV" ∷ h2 in
          ground (
            arith,
            q,
            ok,
            apart,
            e,
            files.wrote h env_json bytes,
            files.kept h1 env_json (open_file iso_path),
            files.kept h2 env_json (write_iso iso_path bytes "ENV"),
            files.kept h3 env_json (close_file iso_path),
          )
