-- ===== src/Vm/Mac/Reading.antt =====
-- vm/agent_settings.go: the address that `GenerateMacAddress` prints, read back.
use Prim.Native.Char.{Char, code}
use Prim.Native.Nat.{bit_or}
use text.Mathlib.TextLemmas.{nil-append, cons-append}
use bosh_esxi_cpi_release.Prelude.{
  ℕ, ◌+◌, ◌-◌, ◌*◌, ◌/◌, ◌%◌, ◌<◌, String, ◌<>◌, true, Option, none, some, ◌≡◌, refl, arith, ltb,
  ◌==◌, str_eq, str_eq_iff, if◌then◌else◌,
}
use bosh_esxi_cpi_release.Prelude.Table.{passes, passes_lem}
use bosh_esxi_cpi_release.Json.Chars.{to_char}
use bosh_esxi_cpi_release.Vm.Mac.{hex_digit, hex2, mac_of}

unfoldable pub hex_of : Char → ℕ
hex_of c = if ltb (code c) b'a' then code c - b'0' else code c - b'a' + 10

-- The text after as many characters as `p` has.
skip : String → String → String
skip String.[] s = s
skip (String.◌∷◌ c p) String.[] = String.[]
skip (String.◌∷◌ c p) (String.◌∷◌ d s) = skip p s

skip_lem : (p s : String) → skip p (p <> s) ≡ s
unfolding skip
skip_lem String.[] s = nil-append s
skip_lem (String.◌∷◌ c p) s = rw cons-append (skip_lem p s)

two_bytes : String → Option (ℕ × ℕ)
unfolding hex_of
two_bytes (String.◌∷◌ a (String.◌∷◌ b (String.◌∷◌ _ (String.◌∷◌ c (String.◌∷◌ d String.[]))))) =
    some (hex_of a * 16 + hex_of b, hex_of c * 16 + hex_of d)
two_bytes _ = none

-- The last two numbers of a MAC address.
pub read_mac : String → Option (ℕ × ℕ)
unfolding two_bytes skip
read_mac s = two_bytes (skip "00:50:56:3f:" s)

pub hex_char : ℕ → Char
hex_char d = if ltb d 10 then to_char (b'0' + d) else to_char (b'a' + (d - 10))

digit_table : passes (λ d. str_eq (hex_digit d) (String.◌∷◌ (hex_char d) String.[])) 0 16 ≡ true
unfolding passes hex_digit hex_char to_char
digit_table = refl

value_table : passes (λ d. hex_of (hex_char d) == d) 0 16 ≡ true
unfolding passes hex_of hex_char to_char
value_table = refl

or_table : passes (λ b. ltb (bit_or b 2) 256) 0 256 ≡ true
unfolding passes
or_table = refl

hex_digit-hex_char : (d : ℕ) → d < 16 → hex_digit d ≡ String.◌∷◌ (hex_char d) String.[]
hex_digit-hex_char d h =
    (str_eq_iff _ _).0 (passes_lem _ 0 16 digit_table d (omega arith) (omega arith))

hex_of-hex_char : (d : ℕ) → d < 16 → hex_of (hex_char d) ≡ d
hex_of-hex_char d h =
    let e : (hex_of (hex_char d) == d) ≡ true =
      passes_lem (λ d. hex_of (hex_char d) == d) 0 16 value_table d (omega arith) (omega arith) in
    ground arith

pub hex2_lem :
    (b : ℕ)
    → b < 256
    → hex2 b ≡ String.◌∷◌ (hex_char (b / 16)) (String.◌∷◌ (hex_char (b % 16)) String.[])
unfolding hex2
hex2_lem b h =
    rw
      (
        hex_digit-hex_char (b / 16) (omega arith),
        hex_digit-hex_char (b % 16) (omega arith),
        cons-append,
        nil-append,
      )
      refl

pub byte_lem : (b : ℕ) → b < 256 → hex_of (hex_char (b / 16)) * 16 + hex_of (hex_char (b % 16)) ≡ b
byte_lem b h =
    rw (hex_of-hex_char (b / 16) (omega arith), hex_of-hex_char (b % 16) (omega arith))
      (omega arith)

pub or_lem : (b : ℕ) → b < 256 → bit_or b 2 < 256
or_lem b h = let e = passes_lem _ 0 256 or_table b (omega arith) (omega arith) in ground arith

-- From the address that is printed for two random bytes the second is read back, and the first with
-- its second lowest bit set: two addresses are the same only if they differ in that bit at most.
pub read_mac-mac_of :
    (b0 b1 : ℕ) → b0 < 256 → b1 < 256 → read_mac (mac_of b0 b1) ≡ some (bit_or b0 2, b1)
unfolding read_mac mac_of
read_mac-mac_of b0 b1 h0 h1 =
    rw
      (
        skip_lem "00:50:56:3f:" (hex2 (bit_or b0 2) <> (":" <> hex2 b1)),
        hex2_lem (bit_or b0 2) (or_lem b0 h0),
        hex2_lem b1 h1,
      )
      (rw (cons-append, cons-append, nil-append, cons-append, nil-append)
        (λ i. some (byte_lem (bit_or b0 2) (or_lem b0 h0) i, byte_lem b1 h1 i)))
