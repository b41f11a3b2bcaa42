-- ===== src/Prelude/Decimal/Reading.antt =====
-- Decimal digits, read as a number.
use Prim.Native.Char.{code}
use Prim.Native.Nat.{ℕ, zero, suc, ◌+◌, ◌-◌, ◌*◌, ◌/◌, ◌%◌, ◌<◌}
use Prim.Native.String.{String, ◌++◌ as ◌<>◌}
use mathlib.Core.Path.{◌≡◌, refl, ◌∙◌}
use mathlib.Core.Logic.{inl, inr}
use native.Mathlib.Omega.{arith}
use text.Mathlib.TextLemmas.{nil-append, cons-append}
use bosh_esxi_cpi_release.Prelude.Tests.{ltb, Bool-cases}
use bosh_esxi_cpi_release.Prelude.Int.{pos}
use bosh_esxi_cpi_release.Prelude.Decimal.{digit, decimal, itoa}

-- The number that the digits go on from `n`.
pub value_from : ℕ → String → ℕ
value_from n String.[] = n
value_from n (String.◌∷◌ c s) = value_from (n * 10 + (code c - b'0')) s

value_from-append : (n : ℕ) (s t : String) → value_from n (s <> t) ≡ value_from (value_from n s) t
unfolding value_from
value_from-append n String.[] t = rw nil-append refl
value_from-append n (String.◌∷◌ c s) t =
    rw cons-append (value_from-append (n * 10 + (code c - b'0')) s t)

value_from-digit : (n d : ℕ) → d < 10 → value_from n (digit d) ≡ n * 10 + d
unfolding value_from digit
value_from-digit n zero h = omega arith
value_from-digit n (suc zero) h = omega arith
value_from-digit n (suc (suc zero)) h = omega arith
value_from-digit n (suc (suc (suc zero))) h = omega arith
value_from-digit n (suc (suc (suc (suc zero)))) h = omega arith
value_from-digit n (suc (suc (suc (suc (suc zero))))) h = omega arith
value_from-digit n (suc (suc (suc (suc (suc (suc zero)))))) h = omega arith
value_from-digit n (suc (suc (suc (suc (suc (suc (suc zero))))))) h = omega arith
value_from-digit n (suc (suc (suc (suc (suc (suc (suc (suc zero)))))))) h = omega arith
value_from-digit n (suc (suc (suc (suc (suc (suc (suc (suc (suc k))))))))) h = omega arith

value_from-decimal : (fuel n : ℕ) → n < fuel → value_from 0 (decimal fuel n) ≡ n
unfolding decimal
value_from-decimal zero n h = absurd (omega arith)
value_from-decimal (suc f) n h = elim (Bool-cases (ltb n 10)) [
  | inl small ↦ rw small (value_from-digit 0 n (ground (arith, small)) ∙ omega arith)
  | inr large ↦
      rw
        (
          large,
          value_from-append 0 (decimal f (n / 10)) (digit (n % 10)),
          value_from-decimal f (n / 10) (ground (arith, large)),
          value_from-digit (n / 10) (n % 10) (omega arith),
        )
        (omega arith)
]

pub value_from-itoa : (n : ℕ) → value_from 0 (itoa (pos n)) ≡ n
unfolding itoa
value_from-itoa n = value_from-decimal (suc n) n (omega arith)
