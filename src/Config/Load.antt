-- ===== src/Config/Load.antt =====
-- config/config.go. The type `apiv1.AgentOptions` and its decoding are parameters.
pub mod RoundTrip
use bosh_esxi_cpi_release.Prelude.{String, ◌<>◌, Option, none, some, List, [], ◌∷◌, ◌⊎◌, inl, inr}
use bosh_esxi_cpi_release.Go.World.{Error, wrapped, bad_json, read_file, World}
use bosh_esxi_cpi_release.Go.Monad.{M, pure, ask, ◌>>=◌, check}
use bosh_esxi_cpi_release.Json.Read.{read}
use bosh_esxi_cpi_release.Json.Decode.{Decoder, decode_string, decode_slice, decode_struct, within}

pub record Datacenter : Type 0 where
  pub name : String
  pub vm_folder : String
  pub template_folder : String
  pub disk_path : String
  pub datastore_pattern : String

pub record Vcenter : Type 0 where
  pub host : String
  pub user : String
  pub password : String
  pub datacenters : List Datacenter

pub record CpiProperties (AgentOptions : Type 0) : Type 0 where
  pub vcenters : List Vcenter
  pub agent : AgentOptions

pub record Cloud (AgentOptions : Type 0) : Type 0 where
  pub plugin : String
  pub properties : CpiProperties AgentOptions

pub record Config (AgentOptions : Type 0) : Type 0 where
  pub cloud : Cloud AgentOptions

abbrev pub zero_datacenter : Datacenter
zero_datacenter = record {
  name = "";
  vm_folder = "";
  template_folder = "";
  disk_path = "";
  datastore_pattern = "";
}

unfoldable pub decode_datacenter : Decoder Datacenter
decode_datacenter = decode_struct (
    ("Name", within (λ d. d.name) (λ v d. record d { name = v }) decode_string)
    ∷ ("Vm_Folder", within (λ d. d.vm_folder) (λ v d. record d { vm_folder = v }) decode_string)
    ∷ (
      "Template_Folder",
      within (λ d. d.template_folder) (λ v d. record d { template_folder = v }) decode_string,
    )
    ∷ ("Disk_Path", within (λ d. d.disk_path) (λ v d. record d { disk_path = v }) decode_string)
    ∷ (
      "Datastore_Pattern",
      within (λ d. d.datastore_pattern) (λ v d. record d { datastore_pattern = v }) decode_string,
    )
    ∷ [])

unfoldable pub decode_vcenter : Decoder Vcenter
unfolding decode_datacenter
decode_vcenter = decode_struct (
    ("Host", within (λ c. c.host) (λ v c. record c { host = v }) decode_string)
    ∷ ("User", within (λ c. c.user) (λ v c. record c { user = v }) decode_string)
    ∷ ("Password", within (λ c. c.password) (λ v c. record c { password = v }) decode_string)
    ∷ (
      "Datacenters",
      within (λ c. c.datacenters) (λ v c. record c { datacenters = v })
          (decode_slice decode_datacenter zero_datacenter),
    )
    ∷ [])

abbrev pub zero_vcenter : Vcenter
zero_vcenter = record { host = ""; user = ""; password = ""; datacenters = [] }

unfoldable pub get_agent_options : {AgentOptions : Type 0} → Config AgentOptions → AgentOptions
get_agent_options c = c.cloud.properties.agent

-- It accepts every configuration.
unfoldable pub validate : {AgentOptions : Type 0} → Config AgentOptions → Option Error
validate c = none

module _ {AgentOptions : Type 0} (decode_agent : Decoder AgentOptions)
    (zero_agent : AgentOptions) where
  abbrev pub zero_config : Config AgentOptions
  zero_config = record {
    cloud = record { plugin = ""; properties = record { vcenters = []; agent = zero_agent } };
  }

  unfoldable pub decode_properties : Decoder (CpiProperties AgentOptions)
  unfolding decode_vcenter
  decode_properties = decode_struct (
      (
        "Vcenters",
        within (λ p. p.vcenters) (λ v p. record p { vcenters = v })
            (decode_slice decode_vcenter zero_vcenter),
      )
      ∷ ("Agent", within (λ p. p.agent) (λ v p. record p { agent = v }) decode_agent)
      ∷ [])

  unfoldable pub decode_cloud : Decoder (Cloud AgentOptions)
  unfolding decode_properties
  decode_cloud = decode_struct (
      ("Plugin", within (λ c. c.plugin) (λ v c. record c { plugin = v }) decode_string)
      ∷ (
        "Properties",
        within (λ c. c.properties) (λ v c. record c { properties = v }) decode_properties,
      )
      ∷ [])

  unfoldable pub decode_config : Decoder (Config AgentOptions)
  unfolding decode_cloud
  decode_config =
      decode_struct
        (("Cloud", within (λ c. c.cloud) (λ v c. record c { cloud = v }) decode_cloud) ∷ [])

  -- What follows the reading of the file. Where Go returns a configuration beside an error, the
  -- model returns the error alone: the caller, `main`, exits.
  unfoldable pub parse_config : String → Error ⊎ Config AgentOptions
  unfolding decode_config validate
  parse_config bytes = elim (read bytes) [
    | none ↦ inl (wrapped (bad_json bytes) "Unmarshalling config")
    | some j ↦ elim (decode_config j zero_config) [
      | none ↦ inl (wrapped (bad_json bytes) "Unmarshalling config")
      | some config ↦ elim (validate config) [
        | some e ↦ inl (wrapped e "Validating configuration")
        | none ↦ inr config
      ]
    ]
  ]

  unfoldable pub new_config_from_path : World → String → M (Error ⊎ Config AgentOptions)
  unfolding parse_config
  new_config_from_path w path = do
    (bytes, err) ← ask (read_file path) (λ h. w.file_bytes h path)
    check err (λ e. pure (inl (wrapped e ("Reading config '" <> (path <> "'")))))
        (pure (parse_config bytes))
