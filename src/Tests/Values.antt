-- ===== src/Tests/Values.antt =====
-- Addresses and flags at concrete values.
use mathlib.Core.List.{Permᴰ}
use mathlib.Core.Bool.{false≢true}
use bosh_esxi_cpi_release.Prelude.{
  str_eq_iff, str_eq-heads, str_eq, sym, ◌∙◌, false, ◌<>◌, true, none, some, [], ◌∷◌, ◌≡◌, refl,
  arith,
}
use bosh_esxi_cpi_release.Go.World.{Flags}
use bosh_esxi_cpi_release.Vm.Mac.{mac_of, generate_mac_address}
use bosh_esxi_cpi_release.Vm.Mac.Range.{InRange, generate_mac_address-InRange}
use bosh_esxi_cpi_release.Tests.World.{one_vm}
use bosh_esxi_cpi_release.Vm.Mac.Reading.{read_mac, read_mac-mac_of}
use bosh_esxi_cpi_release.Runner.FlagSet.{Setting, FlagSet, set_all, lookup}
use bosh_esxi_cpi_release.Runner.FlagSet.Values.{flags_of-value_of}
use bosh_esxi_cpi_release.Runner.FlagSet.Positional.{flags_of-positional}
use bosh_esxi_cpi_release.Runner.Command.{Command, flags_of}
use bosh_esxi_cpi_release.Runner.FlagSet.Order.{set_all-perm}

read_mac-mac_of_example : read_mac (mac_of 0x1C 0xF0) ≡ some (0x1E, 0xF0)
read_mac-mac_of_example = read_mac-mac_of 0x1C 0xF0 (omega arith) (omega arith)

abbrev flags : Flags
flags = ("u", "https://host") ∷ ("k", "true") ∷ []

abbrev registered : FlagSet
registered = record {
  formal =
      record { name = "k"; value = "false"; is_bool = true }
      ∷ record { name = "u"; value = ""; is_bool = true }
      ∷ [];
  args = [];
}

abbrev takes_all : Setting
takes_all = record { accepts = λ k v. true; refused = λ k old v. old }

set_all-perm_example :
    set_all takes_all flags registered
    ≡ set_all takes_all (("k", "true") ∷ ("u", "https://host") ∷ []) registered
set_all-perm_example =
    set_all-perm takes_all (Permᴰ.swap refl refl) ((refl, tt), (tt, tt)) registered

abbrev lists : Command
lists = record {
  registered = registered.formal;
  setting = takes_all;
  process = λ h s. none;
  run = λ h s. ([], none);
}

-- The argument names another host, and the map's wins.
flags_of-value_of_example :
    lookup "u" (flags_of lists flags (some ("-u=https://other" ∷ "vm-1" ∷ []))).formal
    ≡ some (record { name = "u"; value = "https://host"; is_bool = true })
unfolding lookup
flags_of-value_of_example =
    flags_of-value_of lists flags (some ("-u=https://other" ∷ "vm-1" ∷ [])) "u" "https://host"
      (record { name = "u"; value = ""; is_bool = true }) ((refl, tt), (tt, tt)) refl refl refl

flags_of-positional_example :
    flags_of lists flags (some ("vm-1" ∷ "-k" ∷ []))
    ≡ record (flags_of lists flags none) { args = "vm-1" ∷ "-k" ∷ [] }
flags_of-positional_example = flags_of-positional lists flags "vm-1" ("-k" ∷ []) λ tail e.
    let heads : str_eq "vm-1" ("-" <> tail) ≡ false =
      str_eq-heads "v" "-" "m-1" "" "" tail (λ q. ground (arith, q)) in
    false≢true (sym heads ∙ (str_eq_iff "vm-1" ("-" <> tail)).1 e)

generate_mac_address-InRange_example : InRange "00:50:56:3f:1e:f0"
unfolding generate_mac_address
generate_mac_address-InRange_example =
    generate_mac_address-InRange one_vm [] (omega arith, (omega arith, tt)) refl
