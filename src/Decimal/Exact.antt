-- ===== src/Decimal/Exact.antt =====
-- Results that the context does not round.
use fin_skill_os.Prelude.{
  ℕ, ◌+◌, ◌-◌, ◌*◌, ◌<◌, ◌≡◌, refl, ap, ◌∙◌, Bool, true, false, ltb, if◌then◌else◌, arith,
}
use fin_skill_os.Prelude.Digits.{num_digits-le}
use fin_skill_os.Decimal.{Decimal, decimal, signed, overflow, fix, plus, minus, times}

pub fix-exact : (b : Bool) (n s : ℕ) → n < overflow → fix b n s ≡ signed b n s
unfolding fix
fix-exact b n s h = ground (arith, num_digits-le 28 n h)

exact : (b : Bool) (m n r s : ℕ) → m ≡ n → r ≡ s → n < overflow → fix b m r ≡ signed b n s
exact b m n r s h k l = ap (λ z. fix b z r) h ∙ ap (λ z. fix b n z) k ∙ fix-exact b n s l

greater :
    (x y : ℕ) (p q r : Decimal) → y < x → (if ltb y x then p else if ltb x y then q else r) ≡ p
greater x y p q r h = ground arith

same : (x : ℕ) (p q r : Decimal) → (if ltb x x then p else if ltb x x then q else r) ≡ r
same x p q r = ground arith

-- A difference of two values on one side of 0, of six decimal places.
pub minus-exact :
    (b : Bool) (n k : ℕ)
    → k < n
    → n < overflow
    → minus (signed b n 6) (signed b k 6) ≡ signed b (n - k) 6
unfolding minus plus
minus-exact true n k h l =
    greater (n * 1) (k * 1) _ _ _ (ground arith)
    ∙ exact true (n * 1 - k * 1) (n - k) 6 6 (ground arith) refl (ground arith)
minus-exact false n k h l =
    greater (n * 1) (k * 1) _ _ _ (ground arith)
    ∙ exact false (n * 1 - k * 1) (n - k) 6 6 (ground arith) refl (ground arith)

pub minus_self : (b : Bool) (n : ℕ) → minus (signed b n 6) (signed b n 6) ≡ decimal 0 6
unfolding minus plus
minus_self true n = same (n * 1) _ _ _
minus_self false n = same (n * 1) _ _ _

-- A factor 1 or -1.
pub times-exact :
    (b : Bool) (n s : ℕ) → n < overflow → times (signed b 1 0) (signed false n s) ≡ signed b n s
unfolding times
times-exact true n s h = exact true (1 * n) n (0 + s) s (ground arith) (ground arith) h
times-exact false n s h = exact false (1 * n) n (0 + s) s (ground arith) (ground arith) h
