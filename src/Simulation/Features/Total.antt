-- ===== src/Simulation/Features/Total.antt =====
-- When the features can be built.
use fin_skill_os.Prelude.{
  ℕ, suc, ◌≡◌, refl, ap, ◌∙◌, ◌≤◌, true, false, Option, none, some, List, [], ◌∷◌, ◌++◌, ◌-◌, drop,
  ok, err, division_by_zero, ◌>>=◌, length, ◌==◌, ◌⊎◌, inl, inr, Bool-cases, leb, arith,
}
use fin_skill_os.Dict.{Dict, insert, update}
use fin_skill_os.Decimal.Format.{◌+s◌, nat_text}
use fin_skill_os.Simulation.Floats.{Floats, larger}
use fin_skill_os.Simulation.Conditions.{Feature, FeatureRow}
use fin_skill_os.Simulation.Features.{
  Bar, has, average, add_averages, row_of, rows_from, external_row, rest_of, build_features,
}

module _ {F : Type 0} (fl : Floats F) where
  average-ok :
      (w : ℕ) (closes : List F) → (w == 0) ≡ false → (v : Feature F) × (average fl w closes ≡ ok v)
  average-ok w closes h = elim (Bool-cases (leb w (length closes))) [
    | inl e ↦ (
      Feature.number (fl.over (fl.sum (drop (length closes - w) closes)) (fl.of_nat w)),
      ground (arith, e),
    )
    | inr e ↦ (Feature.missing, ground (arith, e))
  ]

  add_averages-ok :
      (ws : List ℕ) (closes : List F) (row : FeatureRow F)
      → has 0 ws ≡ false
      → (r : FeatureRow F) × (add_averages fl ws closes row ≡ ok r)
  unfolding add_averages
  add_averages-ok [] closes row h = (row, refl)
  add_averages-ok (w ∷ ws) closes row h =
      let (v, e) = average-ok w closes (ground arith) in
      let (r, er) =
        add_averages-ok ws closes (insert ("sma_" +s nat_text w) v row) (ground arith) in
      (
        r,
        ap (λ m. m >>= λ u. add_averages fl ws closes (insert ("sma_" +s nat_text w) u row)) e ∙ er,
      )

  add_averages-err :
      (ws : List ℕ) (closes : List F) (row : FeatureRow F)
      → has 0 ws ≡ true
      → add_averages fl ws closes row ≡ err division_by_zero
  unfolding add_averages
  add_averages-err [] closes row h = absurd (ground arith)
  add_averages-err (w ∷ ws) closes row h = elim (Bool-cases (w == 0)) [
    | inl e ↦ ground (arith, e)
    | inr e ↦
        let (v, ev) = average-ok w closes e in
        ap (λ m. m >>= λ u. add_averages fl ws closes (insert ("sma_" +s nat_text w) u row)) ev
        ∙ add_averages-err ws closes (insert ("sma_" +s nat_text w) v row) (ground (arith, e))
  ]

  row_of-ok :
      (ws : List ℕ) (before : List F) (last : Option F) (peak close : F)
      (external : Dict (Feature F))
      → has 0 ws ≡ false
      → (row : FeatureRow F) × (row_of fl ws before last peak close external ≡ ok row)
  unfolding row_of
  row_of-ok ws before last peak close external h =
      let (r, er) = add_averages-ok ws (before ++ close ∷ []) _ h in
      (update r external, ap (λ m. m >>= λ u. ok (update u external)) er)

  row_of-err :
      (ws : List ℕ) (before : List F) (last : Option F) (peak close : F)
      (external : Dict (Feature F))
      → has 0 ws ≡ true
      → row_of fl ws before last peak close external ≡ err division_by_zero
  unfolding row_of
  row_of-err ws before last peak close external h =
      ap (λ m. m >>= λ u. ok (update u external)) (add_averages-err ws (before ++ close ∷ []) _ h)

  rows_from-ok :
      (ws : List ℕ) (before : List F) (last : Option F) (peak : F) (bars : List (Bar F))
      (external : List (Dict (Feature F)))
      → has 0 ws ≡ false
      → (rows : List (FeatureRow F)) × (rows_from fl ws before last peak bars external ≡ ok rows)
        × (length rows ≡ length bars)
  unfolding rows_from
  rows_from-ok ws before last peak [] external h = ([], refl, refl)
  rows_from-ok ws before last peak (bar ∷ bars) external h =
      let (row, er) = row_of-ok ws before last peak bar.close (external_row fl external) h in
      let (rows, e, long) =
        rows_from-ok ws (before ++ bar.close ∷ []) (some bar.close) (larger fl peak bar.close) bars
          (rest_of fl external) h in
      (
        row ∷ rows,
        ap
              (λ m. m >>= λ r.
                rows_from fl ws (before ++ bar.close ∷ []) (some bar.close)
                  (larger fl peak bar.close) bars (rest_of fl external)
                >>= λ rs. ok (r ∷ rs))
              er
            ∙ ap (λ m. m >>= λ rs. ok (row ∷ rs)) e,
        ap suc long,
      )

  rows_from-err :
      (ws : List ℕ) (before : List F) (last : Option F) (peak : F) (bars : List (Bar F))
      (external : List (Dict (Feature F)))
      → 1 ≤ length bars
      → has 0 ws ≡ true
      → rows_from fl ws before last peak bars external ≡ err division_by_zero
  unfolding rows_from
  rows_from-err ws before last peak [] external k h = absurd (ground arith)
  rows_from-err ws before last peak (bar ∷ bars) external k h =
      ground (arith, row_of-err ws before last peak bar.close (external_row fl external) h)

  -- For at least one bar, either a window of a moving average is 0 and the code divides by zero, or
  -- none is and the features are built, a row for each bar.
  pub build_features-has :
      (ws : List ℕ) (bars : List (Bar F)) (external : List (Dict (Feature F)))
      → 1 ≤ length bars
      → ((has 0 ws ≡ true) × (build_features fl ws bars external ≡ err division_by_zero))
        ⊎ ((has 0 ws ≡ false)
            × ((rows : List (FeatureRow F)) × (build_features fl ws bars external ≡ ok rows)
                × (length rows ≡ length bars)))
  unfolding build_features
  build_features-has ws bars external k = elim (Bool-cases (has 0 ws)) [
    | inl h ↦ inl (h, rows_from-err ws [] none fl.minus_infinity bars external k h)
    | inr h ↦ inr (h, rows_from-ok ws [] none fl.minus_infinity bars external h)
  ]
