-- ===== src/Simulation/Engine/Steps.antt =====
-- A pass of the loop as a step relation.
use fin_skill_os.Prelude.{
  ◌≡◌, refl, subst, Bool, true, false, Option, none, some, List, String, Result, ok, ◌>>=◌, ok-one,
  >>=-eq-ok, if◌then◌else◌, arith,
}
use fin_skill_os.Simulation.Floats.{Floats}
use fin_skill_os.Simulation.Conditions.{FeatureRow, feature, evaluate}
use fin_skill_os.Simulation.Parser.{StrategySpec}
use fin_skill_os.Simulation.Features.{Bar}
use fin_skill_os.Simulation.State.{Replay}
use fin_skill_os.Simulation.Engine.{
  number_of, account, enter_market, leave_market, signal, step, date_of, last_date, end_segment,
  close_out,
}

-- How the exposure moves at the end of a bar.
pub data Moves {F : Type 0} (fl : Floats F) (bar : Bar F) : Replay F → Replay F → Type 0 where
  stays : (s : Replay F) → Moves fl bar s s
  enters : (s : Replay F) → s.exposure ≡ false → Moves fl bar s (enter_market fl bar s)
  leaves :
      (s : Replay F) (from : String)
      → s.exposure ≡ true
      → s.segment_start ≡ some from
      → Moves fl bar s (leave_market fl bar from s)

-- How the replay ends after the last bar.
pub data Ends {F : Type 0} (fl : Floats F) : Replay F → Replay F → Type 0 where
  flat : (s : Replay F) → s.exposure ≡ false → Ends fl s s
  unstarted : (s : Replay F) → s.exposure ≡ true → s.segment_start ≡ none → Ends fl s s
  closed :
      (s : Replay F) (from date : String)
      → s.exposure ≡ true
      → s.segment_start ≡ some from
      → Ends fl s (end_segment fl from date s)

module _ {F : Type 0} (fl : Floats F) (spec : StrategySpec F) where
  abbrev to :
      (bar : Bar F) {s t u : Replay F}
      → Moves fl bar s u
      → ◌≡◌ {A = Result (Replay F)} (ok u) (ok t)
      → Moves fl bar s t
  to bar {s} {t} {u} m e = subst (λ v. Moves fl bar s v) (ok-one _ _ e) m

  left :
      (bar : Bar F) (s t : Replay F) (held : Option String)
      → s.exposure ≡ true
      → s.segment_start ≡ held
      → (date_of held >>= λ from. ok (leave_market fl bar from s)) ≡ ok t
      → Moves fl bar s t
  left bar s t none on h e = absurd (ground arith)
  left bar s t (some from) on h e = to bar (leaves s from on h) e

  moved :
      (bar : Bar F) (s t : Replay F) (exposed entry exit : Bool)
      → s.exposure ≡ exposed
      → (if exposed
          then (if exit
              then date_of s.segment_start >>= (λ from. ok (leave_market fl bar from s))
              else ok s)
          else ok (if entry then enter_market fl bar s else s))
        ≡ ok t
      → Moves fl bar s t
  moved bar s t true entry true h e = left bar s t s.segment_start h refl e
  moved bar s t true entry false h e = to bar (stays s) e
  moved bar s t false true exit h e = to bar (enters s h) e
  moved bar s t false false exit h e = to bar (stays s) e

  pub signal-Moves :
      (bar : Bar F) (cur : FeatureRow F) (prev : Option (FeatureRow F)) (s t : Replay F)
      → signal fl spec bar cur prev s ≡ ok t
      → Moves fl bar s t
  unfolding signal
  signal-Moves bar cur prev s t e =
      moved bar s t s.exposure (evaluate fl spec.entry cur prev) (evaluate fl spec.exit cur prev)
        refl e

  -- A pass: the returns of the bar, then a move.
  abbrev pub Passes : Bar F → FeatureRow F → Replay F → Replay F → Type 0
  Passes bar cur s t = (ret : F) × Moves fl bar (account fl bar cur ret s) t

  pub step-Passes :
      (bar : Bar F) (cur : FeatureRow F) (prev : Option (FeatureRow F)) (s t : Replay F)
      → step fl spec bar cur prev s ≡ ok t
      → Passes bar cur s t
  unfolding step
  step-Passes bar cur prev s t e =
      let (ret, _, e1) = >>=-eq-ok (number_of fl (feature "ret" cur)) _ e in
      (ret, signal-Moves bar cur prev (account fl bar cur ret s) t e1)

module _ {F : Type 0} (fl : Floats F) where
  abbrev end_at :
      {s t u : Replay F} → Ends fl s u → ◌≡◌ {A = Result (Replay F)} (ok u) (ok t) → Ends fl s t
  end_at {s} {t} {u} m e = subst (λ v. Ends fl s v) (ok-one _ _ e) m

  ended :
      (bars : List (Bar F)) (s t : Replay F) (exposed : Bool) (held : Option String)
      → s.exposure ≡ exposed
      → s.segment_start ≡ held
      → (if exposed
          then (elim held [
            | none ↦ ok s
            | some from ↦ last_date fl bars >>= λ date. ok (end_segment fl from date s)
          ])
          else ok s)
        ≡ ok t
      → Ends fl s t
  ended bars s t false held h k e = end_at (flat s h) e
  ended bars s t true none h k e = end_at (unstarted s h k) e
  ended bars s t true (some from) h k e =
      let (date, _, e1) = >>=-eq-ok (last_date fl bars) _ e in end_at (closed s from date h k) e1

  pub close_out-Ends :
      (bars : List (Bar F)) (s t : Replay F) → close_out fl bars s ≡ ok t → Ends fl s t
  unfolding close_out
  close_out-Ends bars s t e = ended bars s t s.exposure s.segment_start refl refl e
