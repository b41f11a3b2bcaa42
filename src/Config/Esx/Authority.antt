-- ===== src/Config/Esx/Authority.antt =====
-- govc/govc_config.go: a reader for the URL that `EsxUrl` builds. It follows RFC 3986 and
-- `url.Parse`: the authority ends at the first `/`, `?` or `#`, the host stands after its last `@`,
-- and the password after the first `:`.
use bosh_esxi_cpi_release.Prelude.{
  true, ℕ, ◌≡◌, refl, ◌≢◌, Bool, ◌||◌, Option, none, some, [], ◌∷◌, ◌++◌, arith, ◌==◌,
  if◌then◌else◌,
}
use mathlib.Core.List.{append_assoc}
use bosh_esxi_cpi_release.Config.Url.{Bytes, user_password, host, should_escape, bytes_of, escape}
use bosh_esxi_cpi_release.Config.Url.RoundTrip.{AreBytes, unescape, unescape-escape}
use bosh_esxi_cpi_release.Config.Url.Delimiters.{Lacks, Lacks-append, escape-Lacks}
use bosh_esxi_cpi_release.Config.Esx.{url_string}

put : ℕ → Option (Bytes × Bytes) → Option (Bytes × Bytes)
put c none = none
put c (some (l, r)) = some (c ∷ l, r)

split_first : ℕ → Bytes → Option (Bytes × Bytes)
unfolding put
split_first d [] = none
split_first d (c ∷ s) = let more = put c (split_first d s) in if c == d then some ([], s) else more

-- The text before the last `d`, and the text after it.
or_here : ℕ → ℕ → Bytes → Option (Bytes × Bytes) → Option (Bytes × Bytes)
or_here d c s (some (l, r)) = some (c ∷ l, r)
or_here d c s none = if c == d then some ([], s) else none

split_last : ℕ → Bytes → Option (Bytes × Bytes)
unfolding or_here
split_last d [] = none
split_last d (c ∷ s) = or_here d c s (split_last d s)

ends : ℕ → Bool
ends c = c == b'/' || c == b'?' || c == b'#'

authority : Bytes → Bytes
unfolding ends
authority [] = []
authority (c ∷ s) = let rest = authority s in if ends c then [] else c ∷ rest

strip : Bytes → Bytes → Option Bytes
strip [] s = some s
strip (c ∷ p) [] = none
strip (c ∷ p) (d ∷ s) = if c == d then strip p s else none

three : Option Bytes → Option Bytes → Option Bytes → Option (Bytes × Bytes × Bytes)
three (some a) (some b) (some c) = some (a, b, c)
three _ _ _ = none

read_userinfo : Option (Bytes × Bytes) → Bytes → Option (Bytes × Bytes × Bytes)
unfolding three
read_userinfo none h = none
read_userinfo (some (user, password)) h = three (unescape user) (unescape password) (unescape h)

read_authority : Option (Bytes × Bytes) → Option (Bytes × Bytes × Bytes)
unfolding read_userinfo split_first
read_authority none = none
read_authority (some (userinfo, h)) = read_userinfo (split_first b':' userinfo) h

-- The user, the password and the host of a URL with the scheme `https`.
pub read_url : Bytes → Option (Bytes × Bytes × Bytes)
unfolding authority split_last read_authority strip
read_url s = elim (strip (bytes_of "https://") s) [
  | none ↦ none
  | some rest ↦ read_authority (split_last b'@' (authority rest))
]

split_first_lem : (d : ℕ) (s t : Bytes) → Lacks d s → split_first d (s ++ d ∷ t) ≡ some (s, t)
unfolding split_first
split_first_lem d [] t h = ground arith
split_first_lem d (c ∷ s) t (n, h) = ground (arith, split_first_lem d s t h)

split_last_of_lacking : (d : ℕ) (t : Bytes) → Lacks d t → split_last d t ≡ none
unfolding split_last
split_last_of_lacking d [] h = refl
split_last_of_lacking d (c ∷ t) (n, h) = ground (arith, split_last_of_lacking d t h)

split_last_lem : (d : ℕ) (s t : Bytes) → Lacks d t → split_last d (s ++ d ∷ t) ≡ some (s, t)
unfolding split_last
split_last_lem d [] t h = ground (arith, split_last_of_lacking d t h)
split_last_lem d (c ∷ s) t h = ground (arith, split_last_lem d s t h)

authority_all : (s : Bytes) → Lacks b'/' s → Lacks b'?' s → Lacks b'#' s → authority s ≡ s
unfolding authority
authority_all [] _ _ _ = refl
authority_all (c ∷ s) (a, h) (b, k) (e, l) = ground (arith, authority_all s h k l)

strip-append : (p s : Bytes) → strip p (p ++ s) ≡ some s
unfolding strip
strip-append [] s = refl
strip-append (c ∷ p) s = ground (arith, strip-append p s)

-- What escapes `d` in both modes keeps `d` out of the whole authority but for the two separators.
userinfo : Bytes → Bytes → Bytes
userinfo user password = escape user_password user ++ b':' ∷ escape user_password password

userinfo-Lacks :
    (d : ℕ) (user password : Bytes)
    → should_escape user_password d ≡ true
    → b'%' ≢ d
    → b':' ≢ d
    → AreBytes user
    → AreBytes password
    → Lacks d (userinfo user password)
unfolding userinfo
userinfo-Lacks d user password e p n hu hp =
    Lacks-append d _ _ (escape-Lacks user_password d user e p hu)
      (n, escape-Lacks user_password d password e p hp)

all_Lacks :
    (d : ℕ) (user password h : Bytes)
    → should_escape user_password d ≡ true
    → should_escape host d ≡ true
    → b'%' ≢ d
    → b':' ≢ d
    → b'@' ≢ d
    → AreBytes user
    → AreBytes password
    → AreBytes h
    → Lacks d (userinfo user password ++ b'@' ∷ escape host h)
all_Lacks d user password h e e' p n a hu hp hh =
    Lacks-append d (userinfo user password) _ (userinfo-Lacks d user password e p n hu hp)
      (a, escape-Lacks host d h e' p hh)

url_string_lem :
    (user password h : Bytes)
    → url_string user password h
      ≡ bytes_of "https://" ++ (userinfo user password ++ b'@' ∷ escape host h)
unfolding url_string userinfo
url_string_lem user password h = simp append_assoc

read_parts :
    (user password h : Bytes)
    → AreBytes user
    → AreBytes password
    → AreBytes h
    → read_authority (split_last b'@' (authority (userinfo user password ++ b'@' ∷ escape host h)))
      ≡ some (user, password, h)
unfolding read_authority userinfo should_escape
read_parts user password h hu hp hh = rw (
  authority_all _
      (all_Lacks b'/' user password h refl refl (omega arith) (omega arith) (omega arith) hu hp hh)
      (all_Lacks b'?' user password h refl refl (omega arith) (omega arith) (omega arith) hu hp hh)
      (all_Lacks b'#' user password h refl refl (omega arith) (omega arith) (omega arith) hu hp hh),
  split_last_lem b'@' (userinfo user password) (escape host h)
      (escape-Lacks host b'@' h refl (omega arith) hh),
  split_first_lem b':' (escape user_password user) (escape user_password password)
      (escape-Lacks user_password b':' user refl (omega arith) hu),
  unescape-escape user_password user hu,
  unescape-escape user_password password hp,
  unescape-escape host h hh,
)

-- Whatever bytes the user's name, the password and the host are made of, the URL is read back as
-- exactly these three.
pub read_url-url_string :
    (user password h : Bytes)
    → AreBytes user
    → AreBytes password
    → AreBytes h
    → read_url (url_string user password h) ≡ some (user, password, h)
unfolding read_url
read_url-url_string user password h hu hp hh =
    rw
      (
        url_string_lem user password h,
        strip-append (bytes_of "https://") (userinfo user password ++ b'@' ∷ escape host h),
        read_url,
      )
      (read_parts user password h hu hp hh)
