-- ===== src/Vm/Mac/Range.antt =====
-- vm/agent_settings.go: the range of the addresses that `GenerateMacAddress` makes.
use Prim.Native.Char.{Char, code}
use Prim.Native.Nat.{bit_or}
use text.Mathlib.TextLemmas.{nil-append, cons-append}
use bosh_esxi_cpi_release.Prelude.{
  ℕ, zero, suc, length, ◌+◌, ◌*◌, ◌<◌, ◌≤◌, String, ◌<>◌, Option, none, some, List, [], ◌∷◌, ◌≡◌,
  refl, ◌∙◌, arith, ◌==◌, if◌then◌else◌, All,
}
use bosh_esxi_cpi_release.Go.World.{World, History}
use bosh_esxi_cpi_release.Go.Monad.{returned}
use bosh_esxi_cpi_release.Vm.Mac.{mac_of, hex2, generate_mac_address, byte_at}
use bosh_esxi_cpi_release.Vm.Mac.Reading.{hex_of, hex2_lem, byte_lem, or_lem}

-- Six octets, two digits each, with colons between them.
pub octets : String → Option (List ℕ)
octets String.[] = none
octets (String.◌∷◌ a String.[]) = none
octets (String.◌∷◌ a (String.◌∷◌ b String.[])) = some ((hex_of a * 16 + hex_of b) ∷ [])
octets (String.◌∷◌ a (String.◌∷◌ b (String.◌∷◌ c s))) =
    let rest = octets s in
    if code c == b':'
    then elim rest [ none ↦ none | some l ↦ some ((hex_of a * 16 + hex_of b) ∷ l) ]
    else none

prefixed :
    (s : String) (l : List ℕ)
    → octets s ≡ some l
    → octets ("00:50:56:3f:" <> s) ≡ some (0 ∷ 0x50 ∷ 0x56 ∷ 0x3F ∷ l)
unfolding octets hex_of
prefixed s l e =
    rw (cons-append, cons-append, cons-append, cons-append, cons-append, cons-append)
      (rw
        (
          cons-append, cons-append, cons-append, cons-append, cons-append, cons-append, nil-append,
          e,
        )
        refl)

pair :
    (a b c d : Char)
    → octets
        (String.◌∷◌ a (String.◌∷◌ b String.[]) <> (":" <> String.◌∷◌ c (String.◌∷◌ d String.[])))
      ≡ some ((hex_of a * 16 + hex_of b) ∷ (hex_of c * 16 + hex_of d) ∷ [])
unfolding octets
pair a b c d = rw (cons-append, cons-append, nil-append, cons-append, nil-append) refl

mac_of_lem :
    (b0 b1 : ℕ)
    → b0 < 256
    → b1 < 256
    → octets (mac_of b0 b1) ≡ some (0 ∷ 0x50 ∷ 0x56 ∷ 0x3F ∷ bit_or b0 2 ∷ b1 ∷ [])
unfolding mac_of
mac_of_lem b0 b1 h0 h1 = prefixed (hex2 (bit_or b0 2) <> (":" <> hex2 b1)) (bit_or b0 2 ∷ b1 ∷ []) (
    rw (hex2_lem (bit_or b0 2) (or_lem b0 h0), hex2_lem b1 h1)
      (pair _ _ _ _ ∙ λ i. some (byte_lem (bit_or b0 2) (or_lem b0 h0) i ∷ byte_lem b1 h1 i ∷ [])))

-- The six octets as one number.
abbrev pub number_of : List ℕ → ℕ → ℕ
number_of [] n = n
number_of (o ∷ os) n = number_of os (n * 256 + o)

-- An address of six octets in the range that VMware keeps for addresses that are given by hand:
-- 00:50:56:00:00:00 to 00:50:56:3f:ff:ff.
abbrev pub InRange : String → Type 0
InRange mac =
    (os : List ℕ) × (octets mac ≡ some os)
    × (length os ≡ 6)
    × (0x005056000000 ≤ number_of os 0)
    × (number_of os 0 ≤ 0x0050563FFFFF)

byte_at-All : (i : ℕ) (bs : List ℕ) → All (λ b. b < 256) bs → byte_at i bs < 256
byte_at-All i [] h = omega arith
byte_at-All zero (b ∷ bs) (h, hs) = h
byte_at-All (suc i) (b ∷ bs) (h, hs) = byte_at-All i bs hs

-- If the random bytes are bytes: a `GenerateMacAddress` that returns without an error returns six octets, and their address is in the
-- range that VMware keeps for addresses given by hand.
pub generate_mac_address-InRange :
    (w : World) (h : History) {mac : String} {h' : History}
    → All (λ b. b < 256) (w.random h 2).0
    → generate_mac_address w h ≡ (returned (mac, none), h')
    → InRange mac
unfolding generate_mac_address
generate_mac_address-InRange w h {mac} bytes e =
    let b0 = byte_at 0 (w.random h 2).0 in
    let b1 = byte_at 1 (w.random h 2).0 in
    let h0 = byte_at-All 0 (w.random h 2).0 bytes in
    let h1 = byte_at-All 1 (w.random h 2).0 bytes in
    let same : mac_of b0 b1 ≡ mac = ground (arith, e) in
    (
      0 ∷ 0x50 ∷ 0x56 ∷ 0x3F ∷ bit_or b0 2 ∷ b1 ∷ [],
      rw (← same) (mac_of_lem b0 b1 h0 h1),
      refl,
      omega arith,
      omega (arith, or_lem b0 h0),
    )
