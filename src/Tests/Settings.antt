-- ===== src/Tests/Settings.antt =====
-- A configuration from its file, and a command that writes more than a small pipe holds.
use bosh_esxi_cpi_release.Prelude.{
  ℕ, String, true, none, some, List, [], ◌∷◌, ◌≡◌, refl, length, inr,
}
use bosh_esxi_cpi_release.Go.World.{World, History, Returns, read_file}
use bosh_esxi_cpi_release.Go.Monad.{returned, looping}
use bosh_esxi_cpi_release.Json.Syntax.{str}
use bosh_esxi_cpi_release.Json.Read.{read}
use bosh_esxi_cpi_release.Json.Decode.{decode_string}
use bosh_esxi_cpi_release.Config.Load.{Vcenter, Config, new_config_from_path}
use bosh_esxi_cpi_release.Config.Load.RoundTrip.{encode_config, new_config_from_path-print}
use bosh_esxi_cpi_release.Json.Print.{print}
use bosh_esxi_cpi_release.Json.Decode.{decode_struct, decode_slice}
use bosh_esxi_cpi_release.Json.Chars.{to_char}
use bosh_esxi_cpi_release.Config.Url.{bytes_of, escape}
use bosh_esxi_cpi_release.Config.Esx.{esx_url}
use bosh_esxi_cpi_release.Config.Esx.Authority.{read_url}
use bosh_esxi_cpi_release.Config.Esx.Reading.{parts, esx_url-parts}
use bosh_esxi_cpi_release.Runner.Command.{Command, GovcRunnerImpl, new_govc_runner, cli_command}
use bosh_esxi_cpi_release.Runner.Command.Blocking.{Ran, called, cli_command-Ran}
use bosh_esxi_cpi_release.Tests.World.{one_vm}

abbrev pub config_text : String
config_text =
    "{\"cloud\":{\"plugin\":\"vsphere\",\"properties\":{\"vcenters\":[{\"host\":\"10.0.0.1\",\"user\":\"root\",\"password\":\"p\",\"datacenters\":[]}],\"agent\":\"options\"}}}"

abbrev pub config : Config String
config = record {
  cloud = record {
    plugin = "vsphere";
    properties = record {
      vcenters = record { host = "10.0.0.1"; user = "root"; password = "p"; datacenters = [] } ∷ [];
      agent = "options";
    };
  };
}

abbrev pub configured : World
configured = record one_vm { file_bytes = λ h p. (config_text, none) }

agent_back : (a : String) → decode_string (str a) "" ≡ some a
unfolding decode_string
agent_back a = refl

-- A file with the printed configuration.
abbrev printed : World
printed = record one_vm {
  file_bytes = λ h p. (print (encode_config decode_string "" str agent_back config) "", none);
}

new_config_from_path-print_example :
    new_config_from_path decode_string "" printed "/cpi.json" []
    ≡ (returned (inr config), read_file "/cpi.json" ∷ [])
new_config_from_path-print_example =
    new_config_from_path-print decode_string "" str agent_back printed "/cpi.json" config [] refl
      refl

-- The text that the job's template may write, with space and with other spellings of the keys.
spelled :
    (new_config_from_path decode_string "" configured "/cpi.json" []).0 ≡ returned (inr config)
unfolding new_config_from_path read decode_string decode_struct decode_slice
spelled = refl

abbrev about : Command
about = record {
  registered = [];
  setting = record { accepts = λ k v. true; refused = λ k old v. old };
  process = λ h s. none;
  run = λ h s. (1 ∷ 2 ∷ 3 ∷ [], none);
}

abbrev only_about : GovcRunnerImpl
only_about = new_govc_runner (λ name. some about)

abbrev shown : List ℕ → Returns String
shown bytes = ("text", none)

cli_command-Ran_example :
    Ran only_about 4 length shown "about" [] none [] "text"
      (called only_about 4 length shown "about" [] none [])
unfolding cli_command new_govc_runner
cli_command-Ran_example = cli_command-Ran only_about 4 length shown "about" [] none [] refl

-- More than the pipe holds.
blocked : (cli_command only_about 2 length shown "about" [] none []).0 ≡ looping
unfolding cli_command new_govc_runner
blocked = refl

esx_url-parts_example :
    (v : Vcenter) × (vs : List Vcenter) × (config.cloud.properties.vcenters ≡ v ∷ vs)
    × (◌≡◌ {A = History} [] [])
    × (read_url (bytes_of "https://root:p@10.0.0.1") ≡ some (parts v))
unfolding esx_url bytes_of escape to_char
esx_url-parts_example = esx_url-parts config [] refl
