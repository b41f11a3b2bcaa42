-- ===== src/Config/Esx.antt =====
-- govc/govc_config.go: the URL of the ESXi host, with the user's name and password in it.
pub mod Authority
pub mod Reading
use bosh_esxi_cpi_release.Prelude.{String, List, [], ◌∷◌, ◌++◌, ◌≡◌, refl}
use bosh_esxi_cpi_release.Go.Monad.{M, pure, panic}
use bosh_esxi_cpi_release.Json.Chars.{to_char}
use bosh_esxi_cpi_release.Config.Load.{Vcenter, Config}
use bosh_esxi_cpi_release.Config.Url.{Bytes, user_password, host, bytes_of, escape}
use bosh_esxi_cpi_release.Govc.Api.{GovcConfig}

-- `url.String()` with the scheme `https`.
unfoldable pub url_string : Bytes → Bytes → Bytes → Bytes
url_string user password url_host =
    bytes_of "https://"
    ++ (escape user_password user
        ++ (b':' ∷ escape user_password password ++ (b'@' ∷ escape host url_host)))

-- The text of bytes that are all ASCII.
unfoldable pub text_of : Bytes → String
text_of [] = ""
text_of (b ∷ s) = String.◌∷◌ (to_char b) (text_of s)

-- The URL of the first vCenter; the code reads no other, and is out of range if there is none.
unfoldable pub url_of : List Vcenter → M String
unfolding url_string text_of
url_of [] = panic "index out of range"
url_of (v ∷ _) =
    pure (text_of (url_string (bytes_of v.user) (bytes_of v.password) (bytes_of v.host)))

module _ {AgentOptions : Type 0} where
  unfoldable pub esx_url : Config AgentOptions → M String
  unfolding url_of
  esx_url c = url_of c.cloud.properties.vcenters

  -- `NewGovcConfig`.
  abbrev pub new_govc_config : Config AgentOptions → GovcConfig
  new_govc_config c = record { esx_url = esx_url c }
