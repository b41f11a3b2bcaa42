-- ===== src/Prelude/Decimal.antt =====
-- `strconv.Itoa` and `%d`.
pub mod Reading
use bosh_esxi_cpi_release.Prelude.Int.{ℤ, pos, negsuc}
use Prim.Native.Nat.{ℕ, zero, suc, ◌/◌, ◌%◌}
use Prim.Native.String.{String, ◌++◌ as ◌<>◌}
use mathlib.Core.Path.{◌≡◌, refl}
use bosh_esxi_cpi_release.Prelude.Tests.{ltb, if◌then◌else◌}

-- A digit below ten.
unfoldable pub digit : ℕ → String
digit zero = "0"
digit (suc zero) = "1"
digit (suc (suc zero)) = "2"
digit (suc (suc (suc zero))) = "3"
digit (suc (suc (suc (suc zero)))) = "4"
digit (suc (suc (suc (suc (suc zero))))) = "5"
digit (suc (suc (suc (suc (suc (suc zero)))))) = "6"
digit (suc (suc (suc (suc (suc (suc (suc zero))))))) = "7"
digit (suc (suc (suc (suc (suc (suc (suc (suc zero)))))))) = "8"
digit (suc (suc (suc (suc (suc (suc (suc (suc (suc n))))))))) = "9"

-- The digits of `n`, by fuel: a number has fewer digits than its value, plus one.
unfoldable pub decimal : ℕ → ℕ → String
decimal zero n = ""
decimal (suc f) n =
    let more = decimal f (n / 10) in if ltb n 10 then digit n else more <> digit (n % 10)

unfoldable pub itoa : ℤ → String
unfolding decimal digit
itoa (pos n) = decimal (suc n) n
itoa (negsuc n) = "-" <> decimal (suc (suc n)) (suc n)

itoa_examples : (itoa (pos 2048) ≡ "2048") × (itoa (negsuc 11) ≡ "-12") × (itoa (pos 0) ≡ "0")
unfolding itoa
itoa_examples = (refl, refl, refl)
