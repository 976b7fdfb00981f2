-- ===== src/Trades/Fifo/Matching.antt =====
-- Matching quantities of six decimal places.
use fin_skill_os.Prelude.{
  ℕ, ◌-◌, ◌≤◌, ◌<◌, ◌≡◌, refl, ap, ◌∙◌, Bool, true, false, ◌==◌, if◌then◌else◌, arith,
}
use fin_skill_os.Decimal.{Decimal, decimal, signed, overflow, less, minus, times, magnitude, negate}
use fin_skill_os.Decimal.Exact.{fix-exact, minus-exact, minus_self, times-exact}
use fin_skill_os.Trades.{Sign, sign}
use fin_skill_os.Trades.Fifo.{Lot, factor, reduce, lesser, matched_of}

abbrev pub sign_of : Bool → Sign
sign_of true = Sign.loss
sign_of false = Sign.win

-- A quantity of n millionths, on the short side or the long one.
abbrev pub quantity : Bool → ℕ → Decimal
quantity b n = signed b n 6

pub sign-quantity : (b : Bool) (n : ℕ) → 0 < n → sign (quantity b n) ≡ sign_of b
unfolding sign less
sign-quantity true n h = ground arith
sign-quantity false n h = ground arith

pub magnitude-quantity :
    (b : Bool) (n : ℕ) → n < overflow → magnitude (quantity b n) ≡ quantity false n
unfolding magnitude
magnitude-quantity b n h = fix-exact false n 6 h

unless_zero : (n : ℕ) (x y : Decimal) → 0 < n → (if n == 0 then x else y) ≡ y
unless_zero n x y h = ground arith

pub negate-quantity : (n : ℕ) → 0 < n → n < overflow → negate (quantity false n) ≡ quantity true n
unfolding negate
negate-quantity n h l = unless_zero n _ _ h ∙ fix-exact true n 6 l

lesser-first : (n k : ℕ) → n ≤ k → lesser (quantity false n) (quantity false k) ≡ quantity false n
unfolding less
lesser-first n k h = ground arith

lesser-second : (n k : ℕ) → k < n → lesser (quantity false n) (quantity false k) ≡ quantity false k
unfolding less
lesser-second n k h = ground arith

factor_of : (b : Bool) → factor (sign_of b) ≡ signed b 1 0
factor_of true = refl
factor_of false = refl

signed_match :
    (b : Bool) (n k : ℕ)
    → 0 < n
    → k < overflow
    → times (factor (sign (quantity b n))) (quantity false k) ≡ quantity b k
signed_match b n k h l =
    ap (λ s. times (factor s) (quantity false k)) (sign-quantity b n h)
    ∙ ap (λ f. times f (quantity false k)) (factor_of b)
    ∙ times-exact b k 6 l

pub reduce-less :
    (b : Bool) (n k : ℕ)
    → k < n
    → n < overflow
    → reduce (quantity b n) (quantity false k) ≡ quantity b (n - k)
unfolding reduce
reduce-less b n k h l =
    ap (minus (quantity b n)) (signed_match b n k (ground arith) (ground arith))
    ∙ minus-exact b n k h l

pub reduce_whole :
    (b : Bool) (n : ℕ)
    → 0 < n
    → n < overflow
    → reduce (quantity b n) (quantity false n) ≡ decimal 0 6
unfolding reduce
reduce_whole b n h l = ap (minus (quantity b n)) (signed_match b n n h l) ∙ minus_self b n

module _ (b c : Bool) (n k : ℕ) (lot : Lot) (held : lot.signed_qty ≡ quantity c k)
    (small : n < overflow) (little : k < overflow) where
  magnitudes : matched_of (quantity b n) lot ≡ lesser (quantity false n) (quantity false k)
  unfolding matched_of
  magnitudes =
      ap (λ m. lesser m (magnitude lot.signed_qty)) (magnitude-quantity b n small)
      ∙ ap (lesser (quantity false n)) (ap magnitude held ∙ magnitude-quantity c k little)

  pub matched_of-first : n ≤ k → matched_of (quantity b n) lot ≡ quantity false n
  matched_of-first h = magnitudes ∙ lesser-first n k h

  pub matched_of-second : k < n → matched_of (quantity b n) lot ≡ quantity false k
  matched_of-second h = magnitudes ∙ lesser-second n k h
