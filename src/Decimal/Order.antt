-- ===== src/Decimal/Order.antt =====
-- The order of the decimals.
use native.Mathlib.Nat.{le_of_mul-le-mul_left, mul-le-mul_left, one-le-pow}
use fin_skill_os.Prelude.{
  ℕ, ◌+◌, ◌*◌, ◌^◌, ◌≤◌, ◌<◌, ◌≡◌, not, true, arith, leb→le, le→leb, ◌⊎◌, if◌then◌else◌,
}
use fin_skill_os.Decimal.{Decimal, at_most, less, left_weight}

pub less-eq-not-at_most : (a b : Decimal) → less a b ≡ not (at_most b a)
unfolding less at_most
less-eq-not-at_most a b = ground arith

pub at_most_total : (a b : Decimal) → (at_most a b ≡ true) ⊎ (at_most b a ≡ true)
unfolding at_most
at_most_total a b = ground arith

-- The parts of a decimal: one of them is 0.
abbrev above : Decimal → ℕ
above a = if a.negative then 0 else a.coefficient

abbrev below : Decimal → ℕ
below a = if a.negative then a.coefficient else 0

left_weight_lem :
    (a b : Decimal) → left_weight a b ≡ above a * 10 ^ b.scale + below b * 10 ^ a.scale
left_weight_lem a b = ground arith

ten_pow_pos : (n : ℕ) → 0 < 10 ^ n
ten_pow_pos n = one-le-pow n 10 (omega arith)

-- Cross-multiplied comparisons compose.
cross_trans :
    (p n q m r k A B C : ℕ)
    → 0 < B
    → p * B + m * A ≤ q * A + n * B
    → q * C + k * B ≤ r * B + m * C
    → p * C + k * A ≤ r * A + n * C
cross_trans p n q m r k A B C pos h j =
    le_of_mul-le-mul_left (omega (arith, mul-le-mul_left C h, mul-le-mul_left A j)) pos

-- The order of decimals is transitive, whatever their signs and scales.
pub at_most_trans : (a b c : Decimal) → at_most a b ≡ true → at_most b c ≡ true → at_most a c ≡ true
unfolding at_most
at_most_trans a b c h j = le→leb _ _ (
    rw (left_weight_lem a c, left_weight_lem c a)
      (cross_trans (above a) (below a) (above b) (below b) (above c) (below c) (10 ^ a.scale)
        (10 ^ b.scale) (10 ^ c.scale) (ten_pow_pos b.scale)
        (rw (left_weight_lem a b, left_weight_lem b a) at (leb→le _ _ h))
        (rw (left_weight_lem b c, left_weight_lem c b) at (leb→le _ _ j))))
