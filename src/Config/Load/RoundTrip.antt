-- ===== src/Config/Load/RoundTrip.antt =====
-- config/config.go: a configuration, written as JSON and read from its file.
use bosh_esxi_cpi_release.Prelude.{String, true, none, some, ◌∷◌, ◌≡◌, refl, arith, inr}
use bosh_esxi_cpi_release.Go.World.{World, History, read_file}
use bosh_esxi_cpi_release.Go.Monad.{returned}
use bosh_esxi_cpi_release.Json.Syntax.{Json, str, array, object, end, field}
use bosh_esxi_cpi_release.Json.Read.{read}
use bosh_esxi_cpi_release.Json.Read.Printed.{read-print}
use bosh_esxi_cpi_release.Json.Print.{print, is_plain}
use bosh_esxi_cpi_release.Json.Decode.{Decoder, decode_struct, decode_slice, decode_string}
use bosh_esxi_cpi_release.Json.Encode.{one_field, encode_items, decode_items-encode_items}
use bosh_esxi_cpi_release.Config.Load.{
  Datacenter, Vcenter, Config, zero_datacenter, zero_vcenter, zero_config, decode_datacenter,
  decode_vcenter, decode_config, new_config_from_path,
}

-- The keys are spelled as the job's template spells them.
abbrev pub encode_datacenter : Datacenter → Json
encode_datacenter d = object (
    field "name" (str d.name) (
      field "vm_folder" (str d.vm_folder) (
        field "template_folder" (str d.template_folder) (
          field "disk_path" (str d.disk_path)
            (field "datastore_pattern" (str d.datastore_pattern) end)))))

abbrev pub encode_vcenter : Vcenter → Json
encode_vcenter v = object (
    field "host" (str v.host) (
      field "user" (str v.user) (
        field "password" (str v.password)
          (field "datacenters" (array (encode_items encode_datacenter v.datacenters)) end))))

datacenter_lem : (d : Datacenter) → decode_datacenter (encode_datacenter d) zero_datacenter ≡ some d
unfolding decode_datacenter decode_struct decode_slice decode_string
datacenter_lem d = refl

vcenter_lem : (v : Vcenter) → decode_vcenter (encode_vcenter v) zero_vcenter ≡ some v
unfolding decode_vcenter decode_struct decode_slice decode_string
vcenter_lem v = ground (
  arith,
  decode_items-encode_items decode_datacenter zero_datacenter encode_datacenter datacenter_lem
      v.datacenters,
)

module _ {AgentOptions : Type 0} (decode_agent : Decoder AgentOptions) (zero_agent : AgentOptions)
    (encode_agent : AgentOptions → Json)
    (agent_lem : (a : AgentOptions) → decode_agent (encode_agent a) zero_agent ≡ some a) where
  abbrev pub encode_config : Config AgentOptions → Json
  encode_config c = one_field "cloud" (
      object (
        field "plugin" (str c.cloud.plugin) (
          field "properties"
            (object (
              field "vcenters" (array (encode_items encode_vcenter c.cloud.properties.vcenters))
                (field "agent" (encode_agent c.cloud.properties.agent) end)))
            end)))

  config_lem :
      (c : Config AgentOptions)
      → decode_config decode_agent zero_agent
          (encode_config c)
          (zero_config decode_agent zero_agent)
        ≡ some c
  unfolding decode_config decode_struct decode_slice decode_string
  config_lem c = ground (
    arith,
    decode_items-encode_items decode_vcenter zero_vcenter encode_vcenter vcenter_lem
        c.cloud.properties.vcenters,
    agent_lem c.cloud.properties.agent,
  )

  -- If the file can be read, and its text is JSON that spells the configuration, and the agent's
  -- options can be read back, then `NewConfigFromPath` returns just this configuration, and it does
  -- nothing but read the file.
  pub new_config_from_path-encode_config :
      (w : World) (path bytes : String) (c : Config AgentOptions) (h : History)
      → w.file_bytes h path ≡ (bytes, none)
      → read bytes ≡ some (encode_config c)
      → new_config_from_path decode_agent zero_agent w path h
        ≡ (returned (inr c), read_file path ∷ h)
  unfolding new_config_from_path
  new_config_from_path-encode_config w path bytes c h q p = ground (arith, q, p, config_lem c)

  -- If the file holds the text that is printed for the configuration, the configuration has no control
  -- characters and no numbers in it, and the agent's options can be read back, then
  -- `NewConfigFromPath` returns just this configuration, and it does nothing but read the file.
  pub new_config_from_path-print :
      (w : World) (path : String) (c : Config AgentOptions) (h : History)
      → is_plain (encode_config c) ≡ true
      → w.file_bytes h path ≡ (print (encode_config c) "", none)
      → new_config_from_path decode_agent zero_agent w path h
        ≡ (returned (inr c), read_file path ∷ h)
  new_config_from_path-print w path c h plain q =
      new_config_from_path-encode_config w path (print (encode_config c) "") c h q
        (read-print (encode_config c) plain)
