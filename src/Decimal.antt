-- ===== src/Decimal.antt =====
-- Python's `decimal.Decimal` as the program uses it: finite values under the default context
-- (28 significant digits, ROUND_HALF_EVEN). A value is (-1)^negative * coefficient / 10^scale, the
-- sign of zero included. Two representations of one value differ at most in trailing zeros, which
-- no comparison and no fixed-point format shows. NaN and the infinities, which no NUMERIC column of
-- the program holds, have no counterpart.
pub mod Order
pub mod Rounding
pub mod Format
pub mod Parse
pub mod Exact
use fin_skill_os.Prelude.{
  ℕ, ◌+◌, ◌-◌, ◌*◌, ◌/◌, ◌%◌, ◌^◌, Bool, true, false, differ, Result, ok, err, division_by_zero,
  invalid_operation, ltb, leb, ◌==◌, if◌then◌else◌, max,
}
use fin_skill_os.Prelude.Digits.{num_digits}

pub record Decimal : Type 0 where
  pub negative : Bool
  pub coefficient : ℕ
  pub scale : ℕ

-- `Decimal("12.34")` is `decimal 1234 2`, and `Decimal("-5")` is `minus_decimal 5 0`.
abbrev pub decimal : ℕ → ℕ → Decimal
decimal n s = record { negative = false; coefficient = n; scale = s }

abbrev pub minus_decimal : ℕ → ℕ → Decimal
minus_decimal n s = record { negative = true; coefficient = n; scale = s }

abbrev pub signed : Bool → ℕ → ℕ → Decimal
signed b n s = record { negative = b; coefficient = n; scale = s }

-- The context's precision, and the least coefficient that does not fit it.
abbrev pub precision : ℕ
precision = 28

abbrev pub overflow : ℕ
overflow = 10_000_000_000_000_000_000_000_000_000

-- Comparison is exact: both sides over the common denominator, negative ones moved to the other
-- side, so that only naturals are compared.
abbrev pub left_weight : Decimal → Decimal → ℕ
left_weight a b =
    (if a.negative then 0 else a.coefficient * 10 ^ b.scale)
    + (if b.negative then b.coefficient * 10 ^ a.scale else 0)

-- `a <= b`
unfoldable pub at_most : Decimal → Decimal → Bool
at_most a b = leb (left_weight a b) (left_weight b a)

-- `a < b`
unfoldable pub less : Decimal → Decimal → Bool
less a b = ltb (left_weight a b) (left_weight b a)

-- `a >= b`
abbrev pub at_least : Decimal → Decimal → Bool
at_least a b = at_most b a

-- `a > b`
abbrev pub more : Decimal → Decimal → Bool
more a b = less b a

-- p / q to the nearest whole number, a tie to the even one.
unfoldable pub div_half_even : ℕ → ℕ → ℕ
div_half_even p q =
    let d = p / q in
    let r = p % q in if ltb (2 * r) q then d else if ltb q (2 * r) then d + 1 else d + d % 2

-- The context's rounding of an exact result.
unfoldable pub fix : Bool → ℕ → ℕ → Decimal
unfolding num_digits div_half_even
fix b n s =
    let k = num_digits n - precision in
    if k == 0 then signed b n s else signed b (div_half_even n (10 ^ k) * 10 ^ k) s

-- `a + b`; a sum of opposite numbers is +0.
unfoldable pub plus : Decimal → Decimal → Decimal
unfolding fix
plus a b =
    let s = max a.scale b.scale in
    let x = a.coefficient * 10 ^ (s - a.scale) in
    let y = b.coefficient * 10 ^ (s - b.scale) in
    if differ a.negative b.negative
    then (if ltb y x
        then fix a.negative (x - y) s
        else if ltb x y
        then fix b.negative (y - x) s
        else decimal 0 s)
    else fix a.negative (x + y) s

abbrev pub opposite : Decimal → Decimal
opposite a = record a { negative = differ true a.negative }

-- `a - b`
unfoldable pub minus : Decimal → Decimal → Decimal
unfolding plus
minus a b = plus a (opposite b)

-- `a * b`
unfoldable pub times : Decimal → Decimal → Decimal
unfolding fix
times a b = fix (differ a.negative b.negative) (a.coefficient * b.coefficient) (a.scale + b.scale)

-- p / q, correctly rounded to 28 significant digits, for q that is not 0. The first estimate of the
-- shift leaves 28 or 29 digits before the point.
unfoldable pub quotient : Bool → ℕ → ℕ → Decimal
unfolding num_digits div_half_even
quotient b p q =
    let up = precision + num_digits q - num_digits p in
    let down = num_digits p - (precision + num_digits q) in
    let drop = if ltb (p * 10 ^ up / (q * 10 ^ down)) overflow then down else down + 1 in
    signed b (div_half_even (p * 10 ^ up) (q * 10 ^ drop) * 10 ^ drop) up

-- `a / b`; 0 / 0 is InvalidOperation.
unfoldable pub divide : Decimal → Decimal → Result Decimal
unfolding quotient
divide a b =
    if b.coefficient == 0
    then (if a.coefficient == 0 then err invalid_operation else err division_by_zero)
    else ok (
        quotient (differ a.negative b.negative) (a.coefficient * 10 ^ b.scale)
          (b.coefficient * 10 ^ a.scale))

-- The coefficient of a value rounded to so many decimal places.
unfoldable pub round_to : ℕ → Decimal → ℕ
unfolding div_half_even
round_to places a =
    if leb a.scale places
    then a.coefficient * 10 ^ (places - a.scale)
    else div_half_even a.coefficient (10 ^ (a.scale - places))

-- `a.quantize(Decimal("0.01"))` is `quantize 2 a`: InvalidOperation where the coefficient does not
-- fit the precision.
unfoldable pub quantize : ℕ → Decimal → Result Decimal
unfolding round_to
quantize places a =
    let c = round_to places a in
    if leb overflow c then err invalid_operation else ok (signed a.negative c places)

-- `-a` and `abs(a)`, rounded to the context; a zero has no sign.
unfoldable pub negate : Decimal → Decimal
unfolding fix
negate a =
    if a.coefficient == 0
    then decimal 0 a.scale
    else fix (differ true a.negative) a.coefficient a.scale

unfoldable pub magnitude : Decimal → Decimal
unfolding fix
magnitude a = fix false a.coefficient a.scale
