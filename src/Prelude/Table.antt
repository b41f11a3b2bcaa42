-- ===== src/Prelude/Table.antt =====
-- Facts about a range of numbers, tested at each of them.
use Prim.Native.Nat.{ℕ, zero, suc, ◌+◌, ◌≤◌, ◌<◌}
use mathlib.Core.Path.{◌≡◌}
use mathlib.Core.Logic.{inl, inr}
use mathlib.Core.Bool.{Bool, true, false}
use native.Mathlib.Omega.{arith}
use bosh_esxi_cpi_release.Prelude.Tests.{if◌then◌else◌, Bool-cases}

-- The test holds at `low` and at the numbers that follow it, so many of them in all.
unfoldable pub passes : (ℕ → Bool) → ℕ → ℕ → Bool
passes test low zero = true
passes test low (suc count) =
    let others = passes test (suc low) count in if test low then others else false

pub passes_lem :
    (test : ℕ → Bool) (low count : ℕ)
    → passes test low count ≡ true
    → (x : ℕ) → low ≤ x
    → x < low + count
    → test x ≡ true
unfolding passes
passes_lem test low zero h x above below = absurd (omega arith)
passes_lem test low (suc count) h x above below = elim (Bool-cases (test low)) [
  | inr fails ↦ ground (arith, fails)
  | inl holds ↦ ground (arith, holds, passes_lem test (suc low) count (ground (arith, holds)) x)
]
