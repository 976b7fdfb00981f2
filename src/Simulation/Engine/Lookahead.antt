-- ===== src/Simulation/Engine/Lookahead.antt =====
-- Later bars and the replay.
use fin_skill_os.Prelude.{
  ◌≡◌, refl, sym, ap, ◌∙◌, subst, ◌≤◌, Option, none, some, List, [], ◌∷◌, ◌++◌, ok, ◌>>=◌,
  >>=-eq-ok, ok-one, length, take, Prefix, Prefix-refl, Prefix-trans, Prefix-eq, arith,
}
use fin_skill_os.Dict.{Dict}
use fin_skill_os.Simulation.Floats.{Floats, Texts}
use fin_skill_os.Simulation.Conditions.{Feature, FeatureRow}
use fin_skill_os.Simulation.Parser.{StrategySpec}
use fin_skill_os.Simulation.Features.{Bar, sma_windows, build_features}
use fin_skill_os.Simulation.Features.Slices.{rows_from-RowsOf}
use fin_skill_os.Simulation.State.{SimulationResult, Replay}
use fin_skill_os.Simulation.Engine.{
  start, account, enter_market, leave_market, step, walk, end_segment, simulate,
}
use fin_skill_os.Simulation.Engine.Steps.{
  Moves, stays, enters, leaves, step-Passes, Ends, flat, unstarted, closed, close_out-Ends,
}
use fin_skill_os.Simulation.Engine.Inversion.{simulate-Run, report-fields}

module _ {F : Type 0} (fl : Floats F) where
  -- What a later state of the replay keeps of an earlier one.
  abbrev Extends : Replay F → Replay F → Type 0
  Extends s t = Prefix s.curve t.curve × Prefix s.markers t.markers

  account-Extends :
      (bar : Bar F) (cur : FeatureRow F) (ret : F) (s : Replay F)
      → Extends s (account fl bar cur ret s)
  unfolding account
  account-Extends bar cur ret s = ((_, refl), Prefix-refl s.markers)

  Moves-Extends : {bar : Bar F} {s t : Replay F} → Moves fl bar s t → Extends s t
  unfolding enter_market leave_market
  Moves-Extends (stays s) = (Prefix-refl s.curve, Prefix-refl s.markers)
  Moves-Extends (enters s h) = (Prefix-refl s.curve, (_, refl))
  Moves-Extends (leaves s from h k) = (Prefix-refl s.curve, (_, refl))

  Extends-trans : (s t u : Replay F) → Extends s t → Extends t u → Extends s u
  Extends-trans s t u (h, k) (i, j) = (Prefix-trans s.curve h i, Prefix-trans s.markers k j)

  step-Extends :
      (spec : StrategySpec F) (bar : Bar F) (cur : FeatureRow F) (prev : Option (FeatureRow F))
      (s t : Replay F)
      → step fl spec bar cur prev s ≡ ok t
      → Extends s t
  step-Extends spec bar cur prev s t e =
      let (ret, m) = step-Passes fl spec bar cur prev s t e in
      Extends-trans s (account fl bar cur ret s) t (account-Extends bar cur ret s) (Moves-Extends m)

  walk-Extends :
      (spec : StrategySpec F) (prev : Option (FeatureRow F)) (s : Replay F) (bars : List (Bar F))
      (rows : List (FeatureRow F)) (t : Replay F)
      → walk fl spec prev s bars rows ≡ ok t
      → Extends s t
  unfolding walk
  walk-Extends spec prev s [] rows t e =
      subst (Extends s) (ok-one _ _ e) (Prefix-refl s.curve, Prefix-refl s.markers)
  walk-Extends spec prev s (bar ∷ bars) [] t e = absurd (ground arith)
  walk-Extends spec prev s (bar ∷ bars) (cur ∷ rows) t e =
      let (u, eu, e1) = >>=-eq-ok (step fl spec bar cur prev s) _ e in
      Extends-trans s u t (step-Extends spec bar cur prev s u eu)
        (walk-Extends spec (some cur) u bars rows t e1)

  -- The state after the first bars.
  walk-append :
      (spec : StrategySpec F) (prev : Option (FeatureRow F)) (s : Replay F) (xs ys : List (Bar F))
      (rs qs : List (FeatureRow F)) (t : Replay F)
      → length rs ≡ length xs
      → walk fl spec prev s (xs ++ ys) (rs ++ qs) ≡ ok t
      → (u : Replay F) × (walk fl spec prev s xs rs ≡ ok u) × Extends u t
  unfolding walk
  walk-append spec prev s [] ys [] qs t long e = (s, refl, walk-Extends spec prev s ys qs t e)
  walk-append spec prev s [] ys (r ∷ rs) qs t long e = absurd (ground arith)
  walk-append spec prev s (x ∷ xs) ys [] qs t long e = absurd (ground arith)
  walk-append spec prev s (x ∷ xs) ys (r ∷ rs) qs t long e =
      let (u, eu, e1) = >>=-eq-ok (step fl spec x r prev s) _ e in
      let (v, ev, more) = walk-append spec (some r) u xs ys rs qs t (ground arith) e1 in
      (v, ap (λ q. q >>= λ w. walk fl spec (some r) w xs rs) eu ∙ ev, more)

  Ends-kept : {s t : Replay F} → Ends fl s t → (t.curve ≡ s.curve) × (t.markers ≡ s.markers)
  unfolding end_segment
  Ends-kept (flat s h) = (refl, refl)
  Ends-kept (unstarted s h k) = (refl, refl)
  Ends-kept (closed s from date h k) = (refl, refl)

  -- The curve and the markers of a result are those of its replay.
  abbrev Replayed :
      Texts → StrategySpec F → List (Bar F) → List (Dict (Feature F)) → SimulationResult F → Type 0
  Replayed tx spec bars external r =
      (rows : List (FeatureRow F)) × (s : Replay F) × (build_features fl (sma_windows tx spec) bars
          external
        ≡ ok rows)
      × (walk fl spec none (start fl) bars rows ≡ ok s)
      × (r.equity_curve ≡ s.curve)
      × (r.markers ≡ s.markers)

  simulate-Replayed :
      (tx : Texts) (spec : StrategySpec F) (bars : List (Bar F))
      (external : List (Dict (Feature F))) (r : SimulationResult F)
      → 2 ≤ length bars
      → simulate fl tx spec bars external ≡ ok r
      → Replayed tx spec bars external r
  simulate-Replayed tx spec bars external r h e =
      let (rows, s, t, built, walked, shut, told) = simulate-Run fl tx spec bars external h e in
      let (c, m) = Ends-kept (close_out-Ends fl bars s t shut) in
      let (rc, rm, _, _, _) = report-fields fl tx spec bars rows t told in
      (rows, s, built, walked, rc ∙ c, rm ∙ m)

  longer : {A : Type 0} (xs ys : List A) → 2 ≤ length xs → 2 ≤ length (xs ++ ys)
  longer [] ys h = absurd (ground arith)
  longer (x ∷ []) ys h = absurd (ground arith)
  longer (x ∷ y ∷ xs) ys h = ground arith

  replays-Prefix :
      (tx : Texts) (spec : StrategySpec F) (xs ys : List (Bar F))
      (external : List (Dict (Feature F))) (r q : SimulationResult F)
      → Replayed tx spec (xs ++ ys) external r
      → Replayed tx spec xs (take (length xs) external) q
      → Prefix q.equity_curve r.equity_curve × Prefix q.markers r.markers
  unfolding build_features
  replays-Prefix tx spec xs ys external r q (rows, s, bt, wk, c, m) (rows', s', bt', wk', c', m') =
      let (rs, qs, built, same, long) =
        rows_from-RowsOf fl (sma_windows tx spec) [] none fl.minus_infinity xs ys external bt in
      let (u, wu, (pc, pm)) =
        walk-append spec none (start fl) xs ys rs qs s long
          (ap (walk fl spec none (start fl) (xs ++ ys)) (sym same) ∙ wk) in
      let rows_same = ok-one rs rows' (sym built ∙ bt') in
      let u_same = ok-one u s' (sym wu ∙ ap (walk fl spec none (start fl) xs) rows_same ∙ wk') in
      (
        Prefix-eq (c' ∙ ap (λ v. v.curve) (sym u_same)) c pc,
        Prefix-eq (m' ∙ ap (λ v. v.markers) (sym u_same)) m pm,
      )

  -- A bar's point of the curve and the markers do not depend on later bars: a simulation of at least
  -- two first bars alone, on the external features of these bars alone, has a curve and a list of
  -- markers with which those of the simulation of all bars begin. Both simulations return; nothing
  -- is assumed of the floats.
  pub simulate-Prefix :
      (tx : Texts) (spec : StrategySpec F) (xs ys : List (Bar F))
      (external : List (Dict (Feature F))) (r q : SimulationResult F)
      → 2 ≤ length xs
      → simulate fl tx spec (xs ++ ys) external ≡ ok r
      → simulate fl tx spec xs (take (length xs) external) ≡ ok q
      → Prefix q.equity_curve r.equity_curve × Prefix q.markers r.markers
  simulate-Prefix tx spec xs ys external r q h e k =
      replays-Prefix tx spec xs ys external r q
        (simulate-Replayed tx spec (xs ++ ys) external r (longer xs ys h) e)
        (simulate-Replayed tx spec xs (take (length xs) external) q h k)
