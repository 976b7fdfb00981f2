-- ===== src/Simulation/Features/Slices.antt =====
-- The rows of the first bars.
use fin_skill_os.Prelude.{
  ℕ, zero, suc, ◌≡◌, refl, sym, ap, ◌∙◌, Option, some, List, [], ◌∷◌, ◌++◌, Result, ok, ◌>>=◌,
  >>=-eq-ok, ok-one, length, take, arith,
}
use fin_skill_os.Dict.{Dict}
use fin_skill_os.Simulation.Floats.{Floats, larger}
use fin_skill_os.Simulation.Conditions.{Feature, FeatureRow}
use fin_skill_os.Simulation.Features.{Bar, row_of, rows_from, external_row, rest_of}

-- `external[:n]` gives the first bars what `external` does.
module _ {F : Type 0} (fl : Floats F) where
  external_row-take :
      (n : ℕ) (external : List (Dict (Feature F)))
      → external_row fl (take (suc n) external) ≡ external_row fl external
  external_row-take n [] = refl
  external_row-take n (e ∷ es) = refl

  rest_of-take :
      (n : ℕ) (external : List (Dict (Feature F)))
      → rest_of fl (take (suc n) external) ≡ take n (rest_of fl external)
  rest_of-take zero [] = refl
  rest_of-take (suc n) [] = refl
  rest_of-take n (e ∷ es) = refl

  -- Rows of the first bars, from them alone, and rows of the others.
  abbrev pub RowsOf :
      List ℕ
      → List F
      → Option F
      → F
      → List (Bar F)
      → List (Dict (Feature F))
      → List (FeatureRow F)
      → Type 0
  RowsOf windows before last peak xs external rows =
      (rs : List (FeatureRow F)) × (qs : List (FeatureRow F)) × (rows_from fl windows before last
          peak xs (take (length xs) external)
        ≡ ok rs)
      × (rows ≡ rs ++ qs)
      × (length rs ≡ length xs)

  two_steps :
      {A : Type 0} (call : Result A) (more : Result (List A)) {a : A} {rs : List A}
      → call ≡ ok a
      → more ≡ ok rs
      → (call >>= λ row. more >>= λ rows. ok (row ∷ rows)) ≡ ok (a ∷ rs)
  two_steps call more h k = ground arith

  pub rows_from-RowsOf :
      (windows : List ℕ) (before : List F) (last : Option F) (peak : F) (xs ys : List (Bar F))
      (external : List (Dict (Feature F))) {rows : List (FeatureRow F)}
      → rows_from fl windows before last peak (xs ++ ys) external ≡ ok rows
      → RowsOf windows before last peak xs external rows
  unfolding rows_from
  rows_from-RowsOf windows before last peak [] ys external {rows} e = ([], rows, refl, refl, refl)
  rows_from-RowsOf windows before last peak (x ∷ xs) ys external {rows} e =
      let top = larger fl peak x.close in
      let now = before ++ x.close ∷ [] in
      let others = rest_of fl external in
      let (row, er, e1) =
        >>=-eq-ok (row_of fl windows before last peak x.close (external_row fl external)) _ e in
      let (more, em, e2) =
        >>=-eq-ok (rows_from fl windows now (some x.close) top (xs ++ ys) others) _ e1 in
      let (rs, qs, built, same, long) =
        rows_from-RowsOf windows now (some x.close) top xs ys others em in
      let first =
        ap (row_of fl windows before last peak x.close) (external_row-take (length xs) external)
        ∙ er in
      let after =
        ap (rows_from fl windows now (some x.close) top xs) (rest_of-take (length xs) external)
        ∙ built in
      (
        row ∷ rs,
        qs,
        two_steps _ _ first after,
        sym (ok-one _ _ e2) ∙ ap (λ q. row ∷ q) same,
        ap suc long,
      )
