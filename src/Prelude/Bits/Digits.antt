-- ===== src/Prelude/Bits/Digits.antt =====
-- The native bit operations mean `bitwise`, a recursion on digits with fuel. Here fuel beyond the
-- first number is shown to change nothing.
use Prim.Native.Nat.{ℕ, zero, suc, ◌+◌, ◌*◌, ◌/◌, ◌%◌, ◌≤◌, digits}
use mathlib.Core.Path.{◌≡◌, refl, sym, ap, ◌∙◌}
use native.Mathlib.Omega.{arith}

module _ (keep : ℕ → ℕ) (digit : ℕ → ℕ → ℕ) where
  abbrev run : ℕ → ℕ → ℕ → ℕ
  run = digits keep digit

  of_zero : (fuel e : ℕ) → run fuel 0 e ≡ run 0 0 e
  of_zero zero e = refl
  of_zero (suc fuel) e = refl

  -- The two amounts of fuel need not be the same, only enough.
  either_fuel : (d e more less : ℕ) → (d ≤ more) × (d ≤ less) → run more d e ≡ run less d e
  either_fuel zero e more less h = of_zero more e ∙ sym (of_zero less e)
  either_fuel (suc d) e zero less (h, k) = absurd (omega arith)
  either_fuel (suc d) e (suc more) zero (h, k) = absurd (omega arith)
  either_fuel (suc d) e (suc more) (suc less) (h, k) =
      let halves = either_fuel (suc d / 2) (e / 2) more less (omega arith, omega arith) in
      ap (λ n. n * 2 + digit (suc d % 2) (e % 2)) halves

  pub enough_fuel : (fuel d e : ℕ) → d ≤ fuel → run fuel d e ≡ run d d e
  enough_fuel fuel d e h = either_fuel d e fuel d (h, omega arith)
