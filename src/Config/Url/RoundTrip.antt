-- ===== src/Config/Url/RoundTrip.antt =====
-- `net/url`: what escaping keeps. The decoder is RFC 3986's percent-decoding.
use bosh_esxi_cpi_release.Prelude.{
  ℕ, ◌+◌, ◌*◌, ◌/◌, ◌%◌, ◌-◌, ◌<◌, ◌≡◌, refl, inl, inr, true, false, ◌&&◌, Option, none, some, [],
  ◌∷◌, ◌++◌, All, arith, leb, ◌==◌, Bool-cases, if◌then◌else◌,
}
use bosh_esxi_cpi_release.Config.Url.{
  Bytes, Mode, user_password, host, should_escape, upper_hex, escape_byte, escape,
}

abbrev pub AreBytes : Bytes → Type 0
AreBytes = All (λ c. c < 256)

hex_value : ℕ → Option ℕ
hex_value c =
    if leb b'0' c && leb c b'9'
    then some (c - b'0')
    else if leb b'A' c && leb c b'F'
    then some (c - b'A' + 10)
    else none

cons_to : ℕ → Option Bytes → Option Bytes
cons_to c none = none
cons_to c (some s) = some (c ∷ s)

joined : Option ℕ → Option ℕ → Option Bytes → Option Bytes
joined (some a) (some b) (some s) = some ((a * 16 + b) ∷ s)
joined _ _ _ = none

unfoldable pub unescape : Bytes → Option Bytes
unfolding hex_value cons_to joined
unescape [] = some []
unescape (c ∷ []) = if c == b'%' then none else some (c ∷ [])
unescape (c ∷ d ∷ []) = if c == b'%' then none else cons_to c (unescape (d ∷ []))
unescape (c ∷ d ∷ e ∷ s) =
    let escaped = joined (hex_value d) (hex_value e) (unescape s) in
    let plain = cons_to c (unescape (d ∷ e ∷ s)) in if c == b'%' then escaped else plain

plain_step : (c : ℕ) (s : Bytes) → (c == b'%') ≡ false → unescape (c ∷ s) ≡ cons_to c (unescape s)
unfolding unescape cons_to
plain_step c [] h = rw h
plain_step c (d ∷ []) h = rw h
plain_step c (d ∷ e ∷ s) h = rw h

escaped_step :
    (d e : ℕ) (s : Bytes)
    → unescape (b'%' ∷ d ∷ e ∷ s) ≡ joined (hex_value d) (hex_value e) (unescape s)
unfolding unescape
escaped_step d e s = refl

hex_value-upper_hex : (d : ℕ) → d < 16 → hex_value (upper_hex d) ≡ some d
unfolding hex_value upper_hex
hex_value-upper_hex d h = ground arith

equal_numbers : (a b : ℕ) → (a == b) ≡ true → a ≡ b
equal_numbers a b h = ground arith

percent_not_kept : (m : Mode) → ¬ (should_escape m b'%' ≡ false)
unfolding should_escape
percent_not_kept user_password h = cc
percent_not_kept host h = cc

unescape-nil : unescape [] ≡ some []
unfolding unescape
unescape-nil = refl

percent_escaped : (m : Mode) (c : ℕ) → should_escape m c ≡ false → (c == b'%') ≡ false
percent_escaped m c h = elim (Bool-cases (c == b'%')) [
  | inr other ↦ other
  | inl same ↦ absurd (percent_not_kept m (rw (equal_numbers c b'%' same) at h))
]

unescape-escape_byte :
    (m : Mode) (c : ℕ) (s t : Bytes)
    → c < 256
    → unescape s ≡ some t
    → unescape (escape_byte m c ++ s) ≡ some (c ∷ t)
unfolding escape_byte cons_to joined
unescape-escape_byte m c s t h e = elim (Bool-cases (should_escape m c)) [
  | inr kept ↦ rw (kept, plain_step c s (percent_escaped m c kept), e)
  | inl escaped ↦
      rw
        (
          escaped,
          escaped_step,
          hex_value-upper_hex (c / 16) (omega arith),
          hex_value-upper_hex (c % 16) (omega arith),
          e,
        )
        (ground arith)
]

-- If they are bytes, percent-decoding gives back what was escaped, in either mode.
pub unescape-escape : (m : Mode) (s : Bytes) → AreBytes s → unescape (escape m s) ≡ some s
unfolding escape
unescape-escape m [] h = unescape-nil
unescape-escape m (c ∷ s) (b, h) = unescape-escape_byte m c (escape m s) s b (unescape-escape m s h)
