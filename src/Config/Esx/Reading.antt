-- ===== src/Config/Esx/Reading.antt =====
-- govc/govc_config.go: what `EsxUrl` returns, read back.
use bosh_esxi_cpi_release.Prelude.{String, some, List, [], ◌∷◌, ◌≡◌, refl, arith}
use bosh_esxi_cpi_release.Go.World.{History}
use bosh_esxi_cpi_release.Go.Monad.{returned}
use bosh_esxi_cpi_release.Config.Load.{Vcenter, Config}
use bosh_esxi_cpi_release.Config.Url.{Bytes, user_password, host, bytes_of, escape}
use bosh_esxi_cpi_release.Config.Url.RoundTrip.{AreBytes}
use bosh_esxi_cpi_release.Config.Url.Ascii.{
  AreAscii, bytes_of-AreBytes, escape-AreAscii, AreAscii-append, utf8-to_char,
}
use bosh_esxi_cpi_release.Config.Esx.{url_string, text_of, esx_url}
use bosh_esxi_cpi_release.Config.Esx.Authority.{read_url, read_url-url_string}

bytes_of-text_of : (s : Bytes) → AreAscii s → bytes_of (text_of s) ≡ s
unfolding bytes_of text_of
bytes_of-text_of [] h = refl
bytes_of-text_of (b ∷ s) (p, h) = rw (utf8-to_char b p, bytes_of-text_of s h)

scheme-AreAscii : AreAscii (bytes_of "https://")
unfolding bytes_of
scheme-AreAscii = (
  omega arith,
  (
    omega arith,
    (omega arith, (omega arith, (omega arith, (omega arith, (omega arith, (omega arith, tt)))))),
  ),
)

url_string-AreAscii :
    (user password h : Bytes)
    → AreBytes user
    → AreBytes password
    → AreBytes h
    → AreAscii (url_string user password h)
unfolding url_string bytes_of
url_string-AreAscii user password h hu hp hh =
    AreAscii-append (bytes_of "https://") _ scheme-AreAscii (
      AreAscii-append (escape user_password user) _ (escape-AreAscii user_password user hu) (
        omega arith,
        AreAscii-append (escape user_password password) _
            (escape-AreAscii user_password password hp) (omega arith, escape-AreAscii host h hh),
      ))

-- The bytes that stand for a vCenter in the URL.
abbrev pub parts : Vcenter → Bytes × Bytes × Bytes
parts v = (bytes_of v.user, bytes_of v.password, bytes_of v.host)

read_back :
    (v : Vcenter)
    → read_url
        (bytes_of (text_of (url_string (bytes_of v.user) (bytes_of v.password) (bytes_of v.host))))
      ≡ some (parts v)
read_back v =
    let u = bytes_of-AreBytes v.user in
    let p = bytes_of-AreBytes v.password in
    let h = bytes_of-AreBytes v.host in
    rw (bytes_of-text_of _ (url_string-AreAscii _ _ _ u p h)) (read_url-url_string _ _ _ u p h)

-- Where `EsxUrl` returns, the configuration has a first vCenter, and the URL is read back as exactly
-- this vCenter's user, password and host, whatever characters they are made of; nothing is called.
pub esx_url-parts :
    {AgentOptions : Type 0} (c : Config AgentOptions) (h : History) {t : String} {h' : History}
    → esx_url c h ≡ (returned t, h')
    → (v : Vcenter) × (vs : List Vcenter) × (c.cloud.properties.vcenters ≡ v ∷ vs)
      × (h' ≡ h)
      × (read_url (bytes_of t) ≡ some (parts v))
unfolding esx_url
esx_url-parts c h {t} {h'} e = go c.cloud.properties.vcenters refl
  where
    go :
        (x : List Vcenter)
        → c.cloud.properties.vcenters ≡ x
        → (v : Vcenter) × (vs : List Vcenter) × (c.cloud.properties.vcenters ≡ v ∷ vs)
          × (h' ≡ h)
          × (read_url (bytes_of t) ≡ some (parts v))
    go [] q = ground (arith, q)
    go (v ∷ vs) q =
        let same : text_of (url_string (bytes_of v.user) (bytes_of v.password) (bytes_of v.host))
            ≡ t =
          ground (arith, q) in
        (v, vs, q, ground (arith, q), rw same at (read_back v))
