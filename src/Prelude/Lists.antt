-- ===== src/Prelude/Lists.antt =====
-- Lists measured by native numbers, predicates on lists by recursion.
use Prim.Native.Nat.{ℕ, zero, suc, ◌+◌, ◌-◌, ◌≤◌}
use native.Mathlib.Omega.{arith}
use mathlib.Core.List.{List, [], ◌∷◌, ◌++◌, append_assoc, append-nil}
use mathlib.Core.Path.{◌≡◌, refl, sym, ap, ◌∙◌}
use mathlib.Core.Bool.{Bool, true, false}
use fin_skill_os.Prelude.Tests.{if◌then◌else◌}

module _ {ℓ} {A : Type ℓ} where
  abbrev pub length : List A → ℕ
  length [] = 0
  length (x ∷ xs) = suc (length xs)

  abbrev pub is_empty : List A → Bool
  is_empty [] = true
  is_empty (x ∷ xs) = false

  -- `[x for x in xs if test(x)]`
  abbrev pub keep : (A → Bool) → List A → List A
  keep test [] = []
  keep test (x ∷ xs) = if test x then x ∷ keep test xs else keep test xs

  abbrev pub All {κ} : (A → Type κ) → List A → Type κ
  All P [] = Unit
  All P (x ∷ xs) = P x × All P xs

  -- `xs[:n]` and `xs[n:]`
  abbrev pub take : ℕ → List A → List A
  take zero xs = []
  take (suc n) [] = []
  take (suc n) (x ∷ xs) = x ∷ take n xs

  abbrev pub drop : ℕ → List A → List A
  drop zero xs = xs
  drop (suc n) [] = []
  drop (suc n) (x ∷ xs) = drop n xs

  -- The second list goes on from the first.
  abbrev pub Prefix : List A → List A → Type ℓ
  Prefix xs zs = (ys : List A) × (zs ≡ xs ++ ys)

  pub Prefix-refl : (xs : List A) → Prefix xs xs
  Prefix-refl xs = ([], sym (append-nil xs))

  pub Prefix-trans : (xs : List A) {ys zs : List A} → Prefix xs ys → Prefix ys zs → Prefix xs zs
  Prefix-trans xs (us, h) (vs, k) = (us ++ vs, k ∙ ap (λ l. l ++ vs) h ∙ append_assoc xs us vs)

  pub Prefix-eq : {xs us zs ws : List A} → xs ≡ us → zs ≡ ws → Prefix us ws → Prefix xs zs
  Prefix-eq h k (ys, i) = (ys, k ∙ i ∙ ap (λ l. l ++ ys) (sym h))

  pub length-drop : (n : ℕ) (xs : List A) → length (drop n xs) ≡ length xs - n
  length-drop zero xs = ground arith
  length-drop (suc n) [] = ground arith
  length-drop (suc n) (x ∷ xs) = length-drop n xs ∙ ground arith

  pub length-take : (n : ℕ) (xs : List A) → n ≤ length xs → length (take n xs) ≡ n
  length-take zero xs h = refl
  length-take (suc n) [] h = absurd (ground arith)
  length-take (suc n) (x ∷ xs) h = ap suc (length-take n xs (ground arith))

  pub take-drop : (n : ℕ) (xs : List A) → take n xs ++ drop n xs ≡ xs
  take-drop zero xs = refl
  take-drop (suc n) [] = refl
  take-drop (suc n) (x ∷ xs) = ap (λ l. x ∷ l) (take-drop n xs)

  drop-nil : (n : ℕ) → drop n [] ≡ []
  drop-nil zero = refl
  drop-nil (suc n) = refl

  drop-eq : {m n : ℕ} (xs : List A) → m ≡ n → drop m xs ≡ drop n xs
  drop-eq xs h = ap (λ k. drop k xs) h

  pub drop-drop : (m n : ℕ) (xs : List A) → drop m (drop n xs) ≡ drop (n + m) xs
  drop-drop m zero xs = drop-eq xs (ground arith)
  drop-drop m (suc n) [] = drop-nil m ∙ sym (drop-nil (suc n + m))
  drop-drop m (suc n) (x ∷ xs) =
      drop-drop m n xs ∙ drop-eq {m = suc (n + m)} {n = suc n + m} (x ∷ xs) (ground arith)

  pub drop_all : (xs : List A) → drop (length xs) xs ≡ []
  drop_all [] = refl
  drop_all (x ∷ xs) = drop_all xs

  pub All-snoc {κ} : (P : A → Type κ) (xs : List A) (x : A) → All P xs → P x → All P (xs ++ x ∷ [])
  All-snoc P [] x h k = (k, _)
  All-snoc P (y ∷ xs) x (p, h) k = (p, All-snoc P xs x h k)

  pub All-of {κ} : (P : A → Type κ) (xs : List A) → ((x : A) → P x) → All P xs
  All-of P [] f = _
  All-of P (x ∷ xs) f = (f x, All-of P xs f)

  pub All-map {κ μ} :
      (P : A → Type κ) (Q : A → Type μ) (xs : List A) → ((x : A) → P x → Q x) → All P xs → All Q xs
  All-map P Q [] f h = _
  All-map P Q (x ∷ xs) f (p, h) = (f x p, All-map P Q xs f h)
