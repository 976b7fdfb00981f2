-- ===== src/Decimal/Rounding.antt =====
-- Rounding.
use native.Mathlib.Nat.{div-add-mod', mod-lt}
use fin_skill_os.Prelude.{ℕ, ◌+◌, ◌*◌, ◌/◌, ◌%◌, ◌≤◌, ◌<◌, zero, suc, arith, ◌≡◌, refl, sym, ok}
use fin_skill_os.Decimal.{div_half_even, decimal, divide}

third : divide (decimal 1 0) (decimal 3 0) ≡ ok (decimal 3333333333333333333333333333 28)
unfolding divide
third = refl

two_thirds : divide (decimal 2 0) (decimal 3 0) ≡ ok (decimal 6666666666666666666666666667 28)
unfolding divide
two_thirds = refl

-- Two candidates around a remainder.
nearest_down :
    (d r q p : ℕ)
    → p ≡ d * q + r
    → 2 * r ≤ q
    → (2 * p ≤ 2 * (d * q) + q) × (2 * (d * q) ≤ 2 * p + q)
nearest_down d r q p e h = ground (arith, e)

nearest_up :
    (d r q p : ℕ)
    → p ≡ d * q + r
    → r < q
    → q ≤ 2 * r
    → (2 * p ≤ 2 * ((d + 1) * q) + q) × (2 * ((d + 1) * q) ≤ 2 * p + q)
nearest_up d r q p e l h = ground (arith, e)

nearest_even :
    (d odd r q p : ℕ)
    → odd < 2
    → p ≡ d * q + r
    → r < q
    → 2 * r ≡ q
    → (2 * p ≤ 2 * ((d + odd) * q) + q) × (2 * ((d + odd) * q) ≤ 2 * p + q)
nearest_even d zero r q p b e l h = ground (arith, e, nearest_down d r q p e)
nearest_even d (suc zero) r q p b e l h = nearest_up d r q p e l (omega arith)
nearest_even d (suc (suc n)) r q p b e l h = absurd (omega arith)

-- The rounded quotient is within half a divisor of the dividend, for a divisor that is not 0.
pub div_half_even-nearest :
    (p q : ℕ)
    → 0 < q
    → (2 * p ≤ 2 * (div_half_even p q * q) + q) × (2 * (div_half_even p q * q) ≤ 2 * p + q)
unfolding div_half_even
div_half_even-nearest p q h =
    let e = sym (div-add-mod' p q) in
    let l = mod-lt p h in
    ground (
      arith,
      nearest_down (p / q) (p % q) q p e,
      nearest_up (p / q) (p % q) q p e l,
      nearest_even (p / q) (p / q % 2) (p % q) q p (mod-lt (p / q) (omega arith)) e l,
    )
