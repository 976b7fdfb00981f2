-- ===== src/Simulation/Portfolio/Curve.antt =====
-- The curve of a portfolio.
use fin_skill_os.Prelude.{
  ℕ, suc, ◌≤◌, ◌≡◌, refl, sym, ap, ◌∙◌, subst, Bool, true, false, ◌||◌, Option, none, some, List,
  [], ◌∷◌, ◌++◌, append-nil, map, length, String, str_eq, eq_iff, Result, ok, >>=-eq-ok, ok-one,
  ltb, inl, inr, Bool-cases, if_true, if_false, arith,
}
use fin_skill_os.Dict.{Dict, insert}
use fin_skill_os.Simulation.Floats.{Floats}
use fin_skill_os.Simulation.Metrics.{build_metrics}
use fin_skill_os.Simulation.State.{EquityPoint, SimulationResult}
use fin_skill_os.Simulation.Portfolio.{
  PortfolioPoint, PortfolioResult, Sleeve, Course, sleeve_from, per_bar_returns, keys, dates_of,
  course_from, course, usable, value_of, portfolio, over_dates, synthesize, synthesize_portfolio,
}
use fin_skill_os.Simulation.Portfolio.Dates.{
  IsAscending, same_text, has_date, has_date-put_dates, put_dates-IsAscending, swap, again,
}

module _ {F : Type 0} (fl : Floats F) (round_days : F → Result ℕ) where
  has_key : String → Dict F → Bool
  has_key d m = has_date d (keys fl round_days m)

  has_key-insert :
      (d k : String) (v : F) (m : Dict F)
      → has_key d (insert k v m) ≡ (same_text d k || has_key d m)
  unfolding has_key
  has_key-insert d k v [] = refl
  has_key-insert d k v ((j, w) ∷ m) = elim (Bool-cases (str_eq j k)) [
    | inl e ↦
        ap (has_key d) (if_true (str_eq j k) ((j, v) ∷ m) ((j, w) ∷ insert k v m) e)
        ∙ again (same_text d j) (same_text d k) (has_key d m) (ap (same_text d) ((eq_iff j k).0 e))
    | inr e ↦
        ap (has_key d) (if_false (str_eq j k) ((j, v) ∷ m) ((j, w) ∷ insert k v m) e)
        ∙ ap (λ b. same_text d j || b) (has_key-insert d k v m)
        ∙ swap (same_text d j) (same_text d k) (has_key d m)
  ]

  abbrev pub has_point : String → List (EquityPoint F) → Bool
  has_point d [] = false
  has_point d (p ∷ ps) = same_text d p.date || has_point d ps

  sleeve_from-has_key :
      (d : String) (first : Bool) (a b : F) (ps : List (EquityPoint F)) (m : Sleeve F)
      → has_key d (sleeve_from fl round_days first a b ps m).applied
        ≡ (has_point d ps || has_key d m.applied)
  sleeve_from-has_key d first a b [] m = refl
  sleeve_from-has_key d first a b (p ∷ ps) m =
      sleeve_from-has_key d false p.strategy p.benchmark ps _
      ∙ ap (λ c. has_point d ps || c) (has_key-insert d p.date _ m.applied)
      ∙ turned (has_point d ps) (same_text d p.date) (has_key d m.applied)
    where
      turned : (a b c : Bool) → (a || (b || c)) ≡ ((b || a) || c)
      turned a b c = ground arith

  abbrev pub has_point_of : String → List (SimulationResult F) → Bool
  has_point_of d [] = false
  has_point_of d (r ∷ rs) = has_point d r.equity_curve || has_point_of d rs

  per_bar_returns-has_key :
      (d : String) (r : SimulationResult F)
      → has_key d (per_bar_returns fl round_days r).applied ≡ has_point d r.equity_curve
  unfolding per_bar_returns has_key
  per_bar_returns-has_key d r =
      sleeve_from-has_key d true fl.one fl.one r.equity_curve _
      ∙ or_false (has_point d r.equity_curve)
    where
      or_false : (a : Bool) → (a || false) ≡ a
      or_false a = ground arith

  dates_of-has_date :
      (d : String) (rs : List (SimulationResult F))
      → has_date d (dates_of fl round_days (map (per_bar_returns fl round_days) rs))
        ≡ has_point_of d rs
  unfolding dates_of has_key
  dates_of-has_date d [] = refl
  dates_of-has_date d (r ∷ rs) =
      has_date-put_dates d (keys fl round_days (per_bar_returns fl round_days r).applied)
        (dates_of fl round_days (map (per_bar_returns fl round_days) rs))
      ∙ ap (λ b. b || has_date d (dates_of fl round_days (map (per_bar_returns fl round_days) rs)))
          (per_bar_returns-has_key d r)
      ∙ ap (λ b. has_point d r.equity_curve || b) (dates_of-has_date d rs)

  dates_of-IsAscending : (ms : List (Sleeve F)) → IsAscending (dates_of fl round_days ms)
  unfolding dates_of
  dates_of-IsAscending [] = _
  dates_of-IsAscending (m ∷ ms) =
      put_dates-IsAscending (keys fl round_days m.applied) (dates_of fl round_days ms)
        (dates_of-IsAscending ms)

  abbrev pub date_of : PortfolioPoint F → String
  date_of p = p.date

  dates-snoc :
      (ps : List (PortfolioPoint F)) (p : PortfolioPoint F)
      → map date_of (ps ++ p ∷ []) ≡ map date_of ps ++ p.date ∷ []
  dates-snoc [] p = refl
  dates-snoc (x ∷ ps) p = ap (λ l. x.date ∷ l) (dates-snoc ps p)

  snoc-more : (xs ys : List String) (x : String) → (xs ++ x ∷ []) ++ ys ≡ xs ++ x ∷ ys
  snoc-more [] ys x = refl
  snoc-more (z ∷ xs) ys x = ap (λ l. z ∷ l) (snoc-more xs ys x)

  course_from-dates :
      (weight : F) (ms : List (Sleeve F)) (ds : List String) (c : Course F)
      → map date_of (course_from fl round_days weight ms ds c).curve ≡ map date_of c.curve ++ ds
  unfolding course_from
  course_from-dates weight ms [] c = sym (append-nil (map date_of c.curve))
  course_from-dates weight ms (d ∷ ds) c =
      course_from-dates weight ms ds _
      ∙ ap (λ l. l ++ ds) (dates-snoc c.curve _)
      ∙ snoc-more (map date_of c.curve) ds d

  length-map : (ps : List (PortfolioPoint F)) → length (map date_of ps) ≡ length ps
  length-map [] = refl
  length-map (p ∷ ps) = ap suc (length-map ps)

  -- A portfolio over some dates.
  abbrev IsOver : List String → PortfolioResult F → Type 0
  IsOver ds p = (map date_of p.curve ≡ ds) × (p.bar_count ≡ length ds) × (2 ≤ length ds)

  portfolio-fields :
      (rs : List (SimulationResult F)) (weight : F) (ds : List String) (c : Course F)
      (p : PortfolioResult F)
      → portfolio fl round_days rs weight ds c ≡ ok p
      → (p.curve ≡ c.curve) × (p.bar_count ≡ length ds)
  portfolio-fields rs weight ds c p e =
      let (days, _, e1) = >>=-eq-ok (round_days c.in_market) _ e in
      let (metrics, _, e2) =
        >>=-eq-ok
          (build_metrics fl (map (value_of fl round_days) c.curve) c.port_rets days (length ds) 0 0)
          _ e1 in
      (ap (λ q. q.curve) (sym (ok-one _ _ e2)), ap (λ q. q.bar_count) (sym (ok-one _ _ e2)))

  some-some :
      (p q : PortfolioResult F)
      → ◌≡◌ {A = Result (Option (PortfolioResult F))} (ok (some q)) (ok (some p))
      → q ≡ p
  some-some p q e = ground arith

  none-some :
      {A : Type 0} (p : PortfolioResult F)
      → ◌≡◌ {A = Result (Option (PortfolioResult F))} (ok none) (ok (some p))
      → A
  none-some p e = absurd (ground arith)

  long_enough : (n : ℕ) → ltb n 2 ≡ false → 2 ≤ n
  long_enough n h = ground arith

  portfolio-IsOver :
      (rs : List (SimulationResult F)) (weight : F) (ms : List (Sleeve F)) (ds : List String)
      (p : PortfolioResult F)
      → over_dates fl round_days rs weight ms ds ≡ ok (some p)
      → IsOver ds p
  unfolding course
  portfolio-IsOver rs weight ms ds p e = elim (Bool-cases (ltb (length ds) 2)) [
    | inl short ↦ none-some p (sym (if_true (ltb (length ds) 2) _ _ short) ∙ e)
    | inr long ↦
        let (q, eq, e1) =
          >>=-eq-ok (portfolio fl round_days rs weight ds (course fl round_days weight ms ds)) _
            (sym (if_false (ltb (length ds) 2) _ _ long) ∙ e) in
        let (c, b) = portfolio-fields rs weight ds (course fl round_days weight ms ds) q eq in
        subst (IsOver ds) (some-some p q e1)
          (ap (map date_of) c ∙ course_from-dates weight ms ds _, b, long_enough (length ds) long)
  ]

  synthesize-IsOver :
      (rs : List (SimulationResult F)) (p : PortfolioResult F)
      → synthesize fl round_days rs ≡ ok (some p)
      → IsOver (dates_of fl round_days (map (per_bar_returns fl round_days) rs)) p
  synthesize-IsOver [] p e = none-some p e
  synthesize-IsOver (r ∷ rs) p e = portfolio-IsOver (r ∷ rs) _ _ _ p e

  -- A synthesized portfolio has at least two points, one for each bar it counts, at strictly ascending
  -- dates, and a date is among them exactly when it is the date of a point of a simulation of more
  -- than one bar.
  pub synthesize_portfolio-IsAscending :
      (results : List (SimulationResult F)) (p : PortfolioResult F) (d : String)
      → synthesize_portfolio fl round_days results ≡ ok (some p)
      → (2 ≤ p.bar_count)
        × (length p.curve ≡ p.bar_count)
        × IsAscending (map date_of p.curve)
        × (has_date d (map date_of p.curve) ≡ has_point_of d (usable fl round_days results))
  unfolding synthesize_portfolio
  synthesize_portfolio-IsAscending results p d e =
      let sleeves = map (per_bar_returns fl round_days) (usable fl round_days results) in
      let (dates, bars, long) = synthesize-IsOver (usable fl round_days results) p e in
      (
        subst (λ n. 2 ≤ n) (sym bars) long,
        sym (length-map p.curve) ∙ ap length dates ∙ sym bars,
        subst IsAscending (sym dates) (dates_of-IsAscending sleeves),
        ap (has_date d) dates ∙ dates_of-has_date d (usable fl round_days results),
      )
