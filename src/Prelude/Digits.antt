-- ===== src/Prelude/Digits.antt =====
-- The number of decimal digits of a natural number, by recursion on an accessibility proof.
use Prim.Native.Nat.{ℕ, zero, suc, ◌/◌, ◌^◌, ◌≤◌, ◌<◌}
use mathlib.Core.Logic.{dite}
use mathlib.Core.WellFounded.{Acc, WellFounded}
use native.Mathlib.Omega.{arith}
use native.Mathlib.Decide.{dec_lt}

Acc-below : (k n : ℕ) → n < k → Acc ◌<◌ n
Acc-below zero n h = elim h [ ]
Acc-below (suc k) n h = Acc.intro n (λ m hm. Acc-below k m (omega arith))

unfoldable pub lt_wf : WellFounded ◌<◌
unfolding Acc-below
lt_wf = record { apply = λ n. Acc-below (suc n) n (omega arith) }

tenth_lt : (n : ℕ) → 0 < n → n / 10 < n
tenth_lt n h = omega arith

digits_acc : (n : ℕ) → Acc ◌<◌ n → ℕ
digits_acc n (Acc.intro _ smaller) =
    dite (dec_lt 0 n) (λ h. suc (digits_acc (n / 10) (smaller (n / 10) (omega arith)))) (λ _. 0)

-- 0 for 0.
unfoldable pub num_digits : ℕ → ℕ
unfolding digits_acc lt_wf dec_lt
num_digits n = digits_acc n (lt_wf.apply n)

succ_le : (a k : ℕ) → a ≤ k → suc a ≤ suc k
succ_le a k h = omega arith

div_lt : (n k : ℕ) → n < 10 ^ suc k → n / 10 < 10 ^ k
div_lt n k h = ground arith

dite-le :
    {P : Type 0} (d : Dec P) (x : P → ℕ) (y : ¬ P → ℕ) (k : ℕ)
    → ((p : P) → x p ≤ k)
    → ((n : ¬ P) → y n ≤ k)
    → dite d x y ≤ k
dite-le (yes p) x y k f g = f p
dite-le (no n) x y k f g = g n

digits_acc-le : (k n : ℕ) (a : Acc ◌<◌ n) → n < 10 ^ k → digits_acc n a ≤ k
unfolding digits_acc tenth_lt
digits_acc-le zero n (Acc.intro _ smaller) h =
    dite-le (dec_lt 0 n) _ _ 0 (λ p. absurd (omega arith)) (λ q. omega arith)
digits_acc-le (suc k) n (Acc.intro _ smaller) h =
    dite-le (dec_lt 0 n) _ (λ _. 0) (suc k)
      (λ p. succ_le _ k (digits_acc-le k (n / 10) (smaller (n / 10) (tenth_lt n p)) (div_lt n k h)))
      (λ q. omega arith)

pub num_digits-le : (k n : ℕ) → n < 10 ^ k → num_digits n ≤ k
unfolding num_digits
num_digits-le k n h = digits_acc-le k n (lt_wf.apply n) h
