-- ===== src/Simulation/Engine/Replays.antt =====
-- What holds of every state of the replay, and of every result.
use fin_skill_os.Prelude.{
  ℕ, suc, ◌+◌, ◌≡◌, refl, sym, ap, ◌∙◌, subst, ◌≤◌, Bool, true, false, Option, none, some, List, [],
  ◌∷◌, ◌++◌, String, ok, >>=-eq-ok, ok-one, length, if◌then◌else◌, ◌==◌, ◌⊎◌, inl, inr, Bool-cases,
  arith,
}
use fin_skill_os.Dict.{Dict}
use fin_skill_os.Simulation.Floats.{Floats, Texts}
use fin_skill_os.Simulation.Conditions.{Feature, FeatureRow}
use fin_skill_os.Simulation.Parser.{StrategySpec}
use fin_skill_os.Simulation.Features.{Bar}
use fin_skill_os.Simulation.State.{SimulationResult, Replay, ExposureMarker, MarkerKind}
use fin_skill_os.Simulation.Engine.{
  start, account, enter_market, leave_market, step, walk, end_segment, win_of, simulate,
}
use fin_skill_os.Simulation.Engine.Steps.{
  Moves, stays, enters, leaves, step-Passes, Ends, flat, unstarted, closed, close_out-Ends,
}
use fin_skill_os.Simulation.Engine.Inversion.{simulate-Run, report-fields}

-- The markers take the exposure from off to its last value, and each changes it.
pub data Alternates {F : Type 0} : List (ExposureMarker F) → Bool → Type 0 where
  none_yet : Alternates [] false
  on :
      {ms : List (ExposureMarker F)} (m : ExposureMarker F)
      → m.kind ≡ MarkerKind.enter
      → Alternates ms false
      → Alternates (ms ++ m ∷ []) true
  off :
      {ms : List (ExposureMarker F)} (m : ExposureMarker F)
      → m.kind ≡ MarkerKind.exit
      → Alternates ms true
      → Alternates (ms ++ m ∷ []) false

-- A segment is open exactly under exposure.
abbrev IsOpen : Bool → Option String → Type 0
IsOpen exposed none = exposed ≡ false
IsOpen exposed (some from) = exposed ≡ true

abbrev pub open_of : Bool → ℕ
open_of true = 1
open_of false = 0

module _ {F : Type 0} (fl : Floats F) where
  -- After `n` bars.
  abbrev IsConsistent : ℕ → Replay F → Type 0
  IsConsistent n s =
      (length s.curve ≡ n)
      × (length s.strat_returns ≡ n)
      × (s.in_days ≤ n)
      × (length s.segments ≡ s.round_trips)
      × (s.wins ≤ s.round_trips)
      × (length s.markers ≡ s.round_trips + s.round_trips + open_of s.exposure)
      × IsOpen s.exposure s.segment_start
      × Alternates s.markers s.exposure

  length-snoc : {A : Type 0} (xs : List A) (x : A) → length (xs ++ x ∷ []) ≡ suc (length xs)
  length-snoc [] x = refl
  length-snoc (y ∷ xs) x = ap suc (length-snoc xs x)

  win_of-le : (s : Replay F) → win_of fl s ≤ 1
  win_of-le s = ground arith

  entered :
      (s : Replay F) (m : ExposureMarker F)
      → s.exposure ≡ false
      → length s.markers ≡ s.round_trips + s.round_trips + open_of s.exposure
      → length (s.markers ++ m ∷ []) ≡ s.round_trips + s.round_trips + 1
  entered s m h k = length-snoc s.markers m ∙ ground arith

  left :
      (s : Replay F) (m : ExposureMarker F)
      → s.exposure ≡ true
      → length s.markers ≡ s.round_trips + s.round_trips + open_of s.exposure
      → length (s.markers ++ m ∷ []) ≡ suc s.round_trips + suc s.round_trips + 0
  left s m h k = length-snoc s.markers m ∙ ground arith

  start-IsConsistent : IsConsistent 0 (start fl)
  unfolding start
  start-IsConsistent = (refl, refl, ground arith, refl, ground arith, refl, refl, none_yet)

  account-IsConsistent :
      (n : ℕ) (bar : Bar F) (cur : FeatureRow F) (ret : F) (s : Replay F)
      → IsConsistent n s
      → IsConsistent (suc n) (account fl bar cur ret s)
  unfolding account
  account-IsConsistent n bar cur ret s (c, r, d, g, w, z, o, m) = (
    length-snoc s.curve _ ∙ ap suc c,
    length-snoc s.strat_returns _ ∙ ap suc r,
    ground arith,
    g,
    w,
    z,
    o,
    m,
  )

  Moves-IsConsistent :
      (n : ℕ) {bar : Bar F} {s t : Replay F}
      → Moves fl bar s t
      → IsConsistent n s
      → IsConsistent n t
  unfolding enter_market leave_market
  Moves-IsConsistent n (stays s) h = h
  Moves-IsConsistent n (enters s off_) (c, r, d, g, w, z, o, m) =
      (c, r, d, g, w, entered s _ off_ z, refl, on _ refl (subst (Alternates s.markers) off_ m))
  Moves-IsConsistent n (leaves s from on_ k) (c, r, d, g, w, z, o, m) = (
    c,
    r,
    d,
    length-snoc s.segments _ ∙ ap suc g,
    ground (arith, win_of-le s),
    left s _ on_ z,
    refl,
    off _ refl (subst (Alternates s.markers) on_ m),
  )

  walk-IsConsistent :
      (n : ℕ) (spec : StrategySpec F) (prev : Option (FeatureRow F)) (s : Replay F)
      (bars : List (Bar F)) (rows : List (FeatureRow F)) (t : Replay F)
      → IsConsistent n s
      → walk fl spec prev s bars rows ≡ ok t
      → IsConsistent (n + length bars) t
  unfolding walk
  walk-IsConsistent n spec prev s [] rows t h e =
      subst (IsConsistent (n + 0)) (ok-one _ _ e) (subst (λ k. IsConsistent k s) (ground arith) h)
  walk-IsConsistent n spec prev s (bar ∷ bars) [] t h e = absurd (ground arith)
  walk-IsConsistent n spec prev s (bar ∷ bars) (cur ∷ rows) t h e =
      let (u, eu, e1) = >>=-eq-ok (step fl spec bar cur prev s) _ e in
      let (ret, m) = step-Passes fl spec bar cur prev s u eu in
      let pass = Moves-IsConsistent (suc n) m (account-IsConsistent n bar cur ret s h) in
      subst (λ k. IsConsistent k t) (ground arith)
        (walk-IsConsistent (suc n) spec (some cur) u bars rows t pass e1)

  -- A fraction of counts, the first at most the second.
  abbrev pub Share : ℕ → F → Type 0
  Share n q = (k : ℕ) × (k ≤ n) × (q ≡ fl.over (fl.of_nat k) (fl.of_nat n))

  -- No rate without a round trip, else a fraction of them.
  abbrev pub IsWinRate : ℕ → Option F → Type 0
  IsWinRate trips rate = ((trips ≡ 0) × (rate ≡ none)) ⊎ ((q : F) × (rate ≡ some q) × Share trips q)

  -- What the result of at least two bars tells of its trips, its exposure and its markers.
  abbrev pub IsAccounted : List (Bar F) → SimulationResult F → Type 0
  IsAccounted bars r =
      (length r.equity_curve ≡ length bars)
      × (r.bar_count ≡ length bars)
      × (length r.exposure_segments ≡ r.metrics.round_trips)
      × IsWinRate r.metrics.round_trips r.metrics.win_rate
      × Share (length bars) r.metrics.exposure_pct
      × ((exposed : Bool) × Alternates r.markers exposed
          × (length r.markers + open_of exposed ≡ r.metrics.round_trips + r.metrics.round_trips))

  Ends-counts :
      (n : ℕ) {s t : Replay F}
      → Ends fl s t
      → IsConsistent n s
      → (t.curve ≡ s.curve)
        × (t.in_days ≤ n)
        × (length t.segments ≡ t.round_trips)
        × (t.wins ≤ t.round_trips)
        × Alternates t.markers t.exposure
        × (length t.markers + open_of t.exposure ≡ t.round_trips + t.round_trips)
  unfolding end_segment
  Ends-counts n (flat s h) (c, r, d, g, w, z, o, m) = (refl, d, g, w, m, ground arith)
  Ends-counts n (unstarted s h k) (c, r, d, g, w, z, o, m) = absurd (ground arith)
  Ends-counts n (closed s from date h k) (c, r, d, g, w, z, o, m) =
      (refl, d, length-snoc s.segments _ ∙ ap suc g, ground (arith, win_of-le s), m, ground arith)

  consistent-curve : {n : ℕ} (s : Replay F) → IsConsistent n s → length s.curve ≡ n
  consistent-curve s (c, r, d, g, w, z, o, m) = c

  rounds_ratio :
      (trips wins rounds : ℕ) (rate : Option F)
      → trips ≡ rounds
      → wins ≤ rounds
      → rate ≡ (if rounds == 0 then none else some (fl.over (fl.of_nat wins) (fl.of_nat rounds)))
      → IsWinRate trips rate
  rounds_ratio trips wins rounds rate h w e = elim (Bool-cases (rounds == 0)) [
    | inl c ↦ inl (ground (arith, c), ground (arith, c))
    | inr c ↦ inr (
      fl.over (fl.of_nat wins) (fl.of_nat rounds),
      ground (arith, c),
      (wins, ground arith, ap (λ k. fl.over (fl.of_nat wins) (fl.of_nat k)) (sym h)),
    )
  ]

  days_ratio :
      (n days : ℕ) (pct : F)
      → 2 ≤ n
      → days ≤ n
      → pct ≡ (if n == 0 then fl.nought else fl.over (fl.of_nat days) (fl.of_nat n))
      → Share n pct
  days_ratio n days pct h d e = (days, d, e ∙ ground arith)

  -- A simulation of at least two bars that returns has one point of the curve per bar; as many
  -- segments as round trips; the win rate is missing without a round trip, else a count of at most the
  -- round trips over them, and the exposure a count of at most the bars over them; entries and exits
  -- alternate, beginning with an entry, and with one more marker if the last segment is closed only
  -- by the end there are two markers for each round trip.
  pub simulate-IsAccounted :
      (tx : Texts) (spec : StrategySpec F) (bars : List (Bar F))
      (external : List (Dict (Feature F))) (r : SimulationResult F)
      → 2 ≤ length bars
      → simulate fl tx spec bars external ≡ ok r
      → IsAccounted bars r
  simulate-IsAccounted tx spec bars external r h e =
      let (rows, s, t, built, walked, shut, told) = simulate-Run fl tx spec bars external h e in
      let whole =
        subst (λ k. IsConsistent k s) (ground arith)
          (walk-IsConsistent 0 spec none (start fl) bars rows s start-IsConsistent walked) in
      let (c, d, g, w, m, z) = Ends-counts (length bars) (close_out-Ends fl bars s t shut) whole in
      let (rc, rm, rs, rb, (trips, won, share)) = report-fields fl tx spec bars rows t told in
      (
        ap length rc ∙ ap length c ∙ consistent-curve s whole,
        rb,
        ap length rs ∙ g ∙ sym trips,
        rounds_ratio _ _ _ _ trips w won,
        days_ratio _ _ _ h d share,
        (
          t.exposure,
          subst (λ ms. Alternates ms t.exposure) (sym rm) m,
          ap (λ ms. length ms + open_of t.exposure) rm ∙ z ∙ ap (λ k. k + k) (sym trips),
        ),
      )
