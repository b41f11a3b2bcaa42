-- ===== src/Config/Url.antt =====
-- The part of `net/url` that `EsxUrl` uses: escaping byte by byte, and `URL.String` of a URL that
-- has a scheme, a user with a password, and a host. Bytes are numbers below 256.
pub mod Ascii
pub mod RoundTrip
pub mod Delimiters
use Prim.Native.Char.{code}
use bosh_esxi_cpi_release.Prelude.{
  ℕ, ◌+◌, ◌-◌, ◌/◌, ◌%◌, String, Bool, true, false, ◌&&◌, ◌||◌, List, [], ◌∷◌, ◌++◌, ltb, leb, ◌==◌,
  if◌then◌else◌,
}

abbrev pub Bytes : Type 0
Bytes = List ℕ

-- The encoding of one code point in UTF-8.
unfoldable pub utf8 : ℕ → Bytes
utf8 n =
    if ltb n 0x80
    then n ∷ []
    else if ltb n 0x800
    then (0xC0 + n / 0x40) ∷ (0x80 + n % 0x40) ∷ []
    else if ltb n 0x10000
    then (0xE0 + n / 0x1000) ∷ (0x80 + n / 0x40 % 0x40) ∷ (0x80 + n % 0x40) ∷ []
    else (0xF0 + n / 0x40000)
      ∷ (0x80 + n / 0x1000 % 0x40)
      ∷ (0x80 + n / 0x40 % 0x40)
      ∷ (0x80 + n % 0x40)
      ∷ []

-- The bytes of a Go string.
unfoldable pub bytes_of : String → Bytes
unfolding utf8
bytes_of String.[] = []
bytes_of (String.◌∷◌ c s) = utf8 (code c) ++ bytes_of s

-- The two modes that `EsxUrl` leads to.
pub data Mode : Type 0 where
  user_password host : Mode

unfoldable pub is_alnum : ℕ → Bool
is_alnum c = (leb b'A' c && leb c b'Z') || (leb b'a' c && leb c b'z') || (leb b'0' c && leb c b'9')

-- The list in `shouldEscape` of what a host may hold.
unfoldable pub is_host_char : ℕ → Bool
is_host_char c =
    c == b'!'
    || c == b'$'
    || c == b'&'
    || c == 39
    || c == b'('
    || c == b')'
    || c == b'*'
    || c == b'+'
    || c == b','
    || c == b';'
    || c == b'='
    || c == b':'
    || c == b'['
    || c == b']'
    || c == b'<'
    || c == b'>'
    || c == 34

unfoldable pub is_mark : ℕ → Bool
is_mark c = c == b'-' || c == b'_' || c == b'.' || c == b'~'

-- The reserved characters that a user's name or password may hold as they are.
unfoldable pub is_user_char : ℕ → Bool
is_user_char c = c == b'$' || c == b'&' || c == b'+' || c == b',' || c == b';' || c == b'='

unfoldable pub should_escape : Mode → ℕ → Bool
unfolding is_alnum is_host_char is_mark is_user_char
should_escape user_password c = if is_alnum c || is_mark c || is_user_char c then false else true
should_escape host c = if is_alnum c || is_host_char c || is_mark c then false else true

-- An upper-case hexadecimal digit.
unfoldable pub upper_hex : ℕ → ℕ
upper_hex d = if ltb d 10 then b'0' + d else b'A' + d - 10

unfoldable pub escape_byte : Mode → ℕ → Bytes
unfolding should_escape upper_hex
escape_byte m c =
    if should_escape m c then b'%' ∷ upper_hex (c / 16) ∷ upper_hex (c % 16) ∷ [] else c ∷ []

unfoldable pub escape : Mode → Bytes → Bytes
unfolding escape_byte
escape m [] = []
escape m (c ∷ s) = escape_byte m c ++ escape m s
