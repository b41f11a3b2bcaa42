-- ===== src/Action/Sparing/Laws.antt =====
-- vm/vm.go and stemcell/stemcell.go: what the methods of the two interfaces leave alone on the
-- host.
use bosh_esxi_cpi_release.Prelude.{arith, String}
use bosh_esxi_cpi_release.Go.World.{World}
use bosh_esxi_cpi_release.Go.Avoids.{here, later, Avoids}
use bosh_esxi_cpi_release.Apiv1.{Apiv1}
use bosh_esxi_cpi_release.Vm.Settings.{
  AgentSettings, AgentSettingsImpl, agent_settings, cleanup, generate_agent_env_iso,
  agent_env_bytes_from_file,
}
use bosh_esxi_cpi_release.Vm.Mac.{generate_mac_address}
use bosh_esxi_cpi_release.Stemcell.Client.{
  StemcellClient, StemcellClientImpl, stemcell_client, extract_ovf, unpack,
}
use bosh_esxi_cpi_release.Stemcell.Client as Stemcells
use bosh_esxi_cpi_release.Govc.Deletions.{deletes}

pub record SettingsSpares {Env : Type 0} (s : AgentSettings Env) : Type 0 where
  pub cleans : Avoids deletes s.cleanup
  pub generates : (e : Env) → Avoids deletes (s.generate_agent_env_iso e)
  pub addresses : Avoids deletes s.generate_mac_address
  pub reads : Avoids deletes s.agent_env_bytes_from_file

pub record StemcellSpares (s : StemcellClient) : Type 0 where
  pub extracts : (image_path : String) → Avoids deletes (s.extract_ovf image_path)
  pub cleans : Avoids deletes s.cleanup

-- The agent settings over the world run no command at all.
pub agent_settings-SettingsSpares :
    (api : Apiv1) (w : World) (s : AgentSettingsImpl) → SettingsSpares (agent_settings api w s)
unfolding cleanup generate_agent_env_iso generate_mac_address agent_env_bytes_from_file
agent_settings-SettingsSpares api w s = record {
  cleans = record { grows = λ h. grind (arith, here, later) };
  generates = λ e. record { grows = λ h. grind (arith, here, later) };
  addresses = record { grows = λ h. grind (arith, here, later) };
  reads = record { grows = λ h. grind (arith, here, later) };
}

-- Neither does the stemcell client.
pub stemcell_client-StemcellSpares :
    (w : World) (s : StemcellClientImpl) → StemcellSpares (stemcell_client w s)
unfolding Stemcells.cleanup extract_ovf unpack
stemcell_client-StemcellSpares w s = record {
  extracts = λ path. record { grows = λ h. grind (arith, here, later) };
  cleans = record { grows = λ h. grind (arith, here, later) };
}
