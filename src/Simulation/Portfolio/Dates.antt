-- ===== src/Simulation/Portfolio/Dates.antt =====
-- The dates of a portfolio.

use fin_skill_os.Prelude.{
  ℕ, ◌≡◌, refl, ap, ◌∙◌, Bool, true, false, ◌&&◌, ◌||◌, List, [], ◌∷◌, All, All-map, String, ◌==◌,
  if◌then◌else◌, arith,
}
use fin_skill_os.Wording.Matching.{codes}
use fin_skill_os.Simulation.Portfolio.{less_codes, before, put_date, put_dates}

-- Texts of the same code points: neither is before the other.
abbrev pub same_codes : List ℕ → List ℕ → Bool
same_codes [] [] = true
same_codes (x ∷ xs) (y ∷ ys) = (x == y) && same_codes xs ys
same_codes _ _ = false

same_codes-eq : (xs ys : List ℕ) → same_codes xs ys ≡ true → xs ≡ ys
same_codes-eq [] [] h = refl
same_codes-eq [] (y ∷ ys) h = absurd (ground arith)
same_codes-eq (x ∷ xs) [] h = absurd (ground arith)
same_codes-eq (x ∷ xs) (y ∷ ys) h = ground (arith, same_codes-eq xs ys)

unordered : (xs ys : List ℕ) → less_codes xs ys ≡ false → less_codes ys xs ≡ false → xs ≡ ys
unordered [] [] h k = refl
unordered [] (y ∷ ys) h k = absurd (ground arith)
unordered (x ∷ xs) [] h k = absurd (ground arith)
unordered (x ∷ xs) (y ∷ ys) h k = ground (arith, unordered xs ys)

less_codes_trans :
    (xs ys zs : List ℕ)
    → less_codes xs ys ≡ true
    → less_codes ys zs ≡ true
    → less_codes xs zs ≡ true
less_codes_trans xs [] zs h k = absurd (ground arith)
less_codes_trans xs (y ∷ ys) [] h k = absurd (ground arith)
less_codes_trans [] (y ∷ ys) (z ∷ zs) h k = refl
less_codes_trans (x ∷ xs) (y ∷ ys) (z ∷ zs) h k = ground (arith, less_codes_trans xs ys zs)

irreflexive : (xs : List ℕ) → less_codes xs xs ≡ false
irreflexive [] = refl
irreflexive (x ∷ xs) = ground (arith, irreflexive xs)

-- A strictly ascending list.
abbrev pub IsAscending : List String → Type 0
IsAscending [] = Unit
IsAscending (d ∷ ds) = All (λ e. before d e ≡ true) ds × IsAscending ds

abbrev pub same_text : String → String → Bool
same_text d e = same_codes (codes d) (codes e)

abbrev pub has_date : String → List String → Bool
has_date d [] = false
has_date d (e ∷ es) = same_text d e || has_date d es

pub swap : (a b c : Bool) → (a || (b || c)) ≡ (b || (a || c))
swap a b c = ground arith

pub again : (a b c : Bool) → a ≡ b → (a || c) ≡ (b || (a || c))
again a b c h = ground arith

three {ℓ} :
    {A : Type ℓ} (P : A → Type 0) (b c : Bool) (x y z : A)
    → (b ≡ true → P x)
    → (c ≡ true → P y)
    → (b ≡ false → c ≡ false → P z)
    → P (if b then x else if c then y else z)
three P true c x y z f g h = f refl
three P false true x y z f g h = g refl
three P false false x y z f g h = h refl refl

has_date-put_date :
    (d e : String) (es : List String)
    → has_date d (put_date e es) ≡ (same_text d e || has_date d es)
has_date-put_date d e [] = refl
has_date-put_date d e (x ∷ xs) =
    three (λ l. has_date d l ≡ (same_text d e || has_date d (x ∷ xs))) (before e x) (before x e) _ _
      _ (λ h. refl)
      (λ h.
        ap (λ b. same_text d x || b) (has_date-put_date d e xs)
        ∙ swap (same_text d x) (same_text d e) (has_date d xs))
      (λ h k.
        again (same_text d x) (same_text d e) (has_date d xs)
          (ap (same_codes (codes d)) (unordered (codes x) (codes e) k h)))

All-put_date :
    (P : String → Type 0) (d : String) (es : List String) → P d → All P es → All P (put_date d es)
All-put_date P d [] p h = (p, _)
All-put_date P d (x ∷ xs) p (q, h) =
    three (All P) (before d x) (before x d) _ _ _ (λ _. (p, (q, h)))
      (λ _. (q, All-put_date P d xs p h)) (λ _ _. (q, h))

put_date-IsAscending :
    (d : String) (es : List String) → IsAscending es → IsAscending (put_date d es)
put_date-IsAscending d [] h = (_, _)
put_date-IsAscending d (x ∷ xs) (f, h) =
    three IsAscending (before d x) (before x d) _ _ _
      (λ l. (
        (
          l,
          All-map (λ e. before x e ≡ true) (λ e. before d e ≡ true) xs
              (λ e k. less_codes_trans (codes d) (codes x) (codes e) l k) f,
        ),
        (f, h),
      ))
      (λ l. (All-put_date (λ e. before x e ≡ true) d xs l f, put_date-IsAscending d xs h))
      (λ _ _. (f, h))

pub put_dates-IsAscending : (ds es : List String) → IsAscending es → IsAscending (put_dates ds es)
put_dates-IsAscending [] es h = h
put_dates-IsAscending (d ∷ ds) es h =
    put_date-IsAscending d (put_dates ds es) (put_dates-IsAscending ds es h)

pub or_assoc : (a b c : Bool) → (a || (b || c)) ≡ ((a || b) || c)
or_assoc a b c = ground arith

pub has_date-put_dates :
    (d : String) (ds es : List String)
    → has_date d (put_dates ds es) ≡ (has_date d ds || has_date d es)
has_date-put_dates d [] es = refl
has_date-put_dates d (e ∷ ds) es =
    has_date-put_date d e (put_dates ds es)
    ∙ ap (λ b. same_text d e || b) (has_date-put_dates d ds es)
    ∙ or_assoc (same_text d e) (has_date d ds) (has_date d es)
