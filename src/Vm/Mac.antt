-- ===== src/Vm/Mac.antt =====
-- vm/agent_settings.go: `GenerateMacAddress`.
pub mod Reading
pub mod Range
use Prim.Native.Nat.{bit_or}
use bosh_esxi_cpi_release.Prelude.{
  ℕ, zero, suc, ◌/◌, ◌%◌, String, ◌<>◌, none, some, List, [], ◌∷◌, ◌≡◌, refl,
}
use bosh_esxi_cpi_release.Prelude.Decimal.{digit}
use bosh_esxi_cpi_release.Go.World.{random_bytes, World, Returns}
use bosh_esxi_cpi_release.Go.Monad.{M, pure, ask, ◌>>=◌, check}

unfoldable pub hex_digit : ℕ → String
unfolding digit
hex_digit (suc (suc (suc (suc (suc (suc (suc (suc (suc (suc zero)))))))))) = "a"
hex_digit (suc (suc (suc (suc (suc (suc (suc (suc (suc (suc (suc zero))))))))))) = "b"
hex_digit (suc (suc (suc (suc (suc (suc (suc (suc (suc (suc (suc (suc zero)))))))))))) = "c"
hex_digit (suc (suc (suc (suc (suc (suc (suc (suc (suc (suc (suc (suc (suc zero))))))))))))) = "d"
hex_digit (suc (suc (suc (suc (suc (suc (suc (suc (suc (suc (suc (suc (suc (suc zero)))))))))))))) =
    "e"
hex_digit
      (suc (suc (suc (suc (suc (suc (suc (suc (suc (suc (suc (suc (suc (suc (suc n))))))))))))))) =
    "f"
hex_digit n = digit n

-- `%02x` of a byte.
unfoldable pub hex2 : ℕ → String
unfolding hex_digit
hex2 b = hex_digit (b / 16) <> hex_digit (b % 16)

-- The address, from the two bytes of the buffer.
unfoldable pub mac_of : ℕ → ℕ → String
unfolding hex2
mac_of b0 b1 = "00:50:56:3f:" <> (hex2 (bit_or b0 2) <> (":" <> hex2 b1))

-- `buf[i]`: the buffer has two bytes, zero where `rand.Read` wrote none.
abbrev pub byte_at : ℕ → List ℕ → ℕ
byte_at i [] = 0
byte_at zero (b ∷ bs) = b
byte_at (suc i) (b ∷ bs) = byte_at i bs

module _ (w : World) where
  unfoldable pub generate_mac_address : M (Returns String)
  unfolding mac_of
  generate_mac_address = do
    (buf, err) ← ask (random_bytes 2) (λ h. w.random h 2)
    check err (λ e. pure ("", some e)) (pure (mac_of (byte_at 0 buf) (byte_at 1 buf), none))

mac_example : mac_of 0x1C 0xF0 ≡ "00:50:56:3f:1e:f0"
unfolding mac_of
mac_example = refl
