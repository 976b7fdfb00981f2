-- ===== src/Guards/Base/Ranks.antt =====
-- The overall status and risk level of a report: the worst ones of its results.
use fin_skill_os.Prelude.{
  ◌≡◌, refl, sym, ap, ◌∙◌, Bool, true, false, ◌||◌, List, [], ◌∷◌, map, ltb, keep, is_empty, not,
  arith, if◌then◌else◌,
}
use fin_skill_os.Guards.Base.{
  Status, RiskLevel, GuardResult, status_rank, risk_rank, max_from, worst_status, worst_risk_level,
  is_failing,
}

abbrev is_status : Status → Status → Bool
is_status Status.passed Status.passed = true
is_status Status.info Status.info = true
is_status Status.warn Status.warn = true
is_status Status.failed Status.failed = true
is_status Status.blocked Status.blocked = true
is_status _ _ = false

abbrev is_level : RiskLevel → RiskLevel → Bool
is_level RiskLevel.green RiskLevel.green = true
is_level RiskLevel.unknown RiskLevel.unknown = true
is_level RiskLevel.yellow RiskLevel.yellow = true
is_level RiskLevel.orange RiskLevel.orange = true
is_level RiskLevel.red RiskLevel.red = true
is_level _ _ = false

abbrev any {ℓ} : {A : Type ℓ} → (A → Bool) → List A → Bool
any test [] = false
any test (x ∷ xs) = test x || any test xs

-- BLOCKED when one of the statuses is, else FAIL when one is, else WARN, INFO, and PASS at last.
abbrev pub status_by_severity : List Status → Status
status_by_severity ss =
    if any (is_status Status.blocked) ss
    then Status.blocked
    else if any (is_status Status.failed) ss
    then Status.failed
    else if any (is_status Status.warn) ss
    then Status.warn
    else if any (is_status Status.info) ss
    then Status.info
    else Status.passed

-- RED when one of the levels is, else ORANGE when one is, else YELLOW, UNKNOWN, and GREEN at last.
abbrev pub level_by_severity : List RiskLevel → RiskLevel
level_by_severity ls =
    if any (is_level RiskLevel.red) ls
    then RiskLevel.red
    else if any (is_level RiskLevel.orange) ls
    then RiskLevel.orange
    else if any (is_level RiskLevel.yellow) ls
    then RiskLevel.yellow
    else if any (is_level RiskLevel.unknown) ls
    then RiskLevel.unknown
    else RiskLevel.green

-- Of two statuses the loop keeps one that the severities keep.
status-two :
    (s t : Status) (ss : List Status)
    → status_by_severity ((if ltb (status_rank s) (status_rank t) then t else s) ∷ ss)
      ≡ status_by_severity (s ∷ t ∷ ss)
status-two s t ss = ground arith

status-one : (s : Status) → s ≡ status_by_severity (s ∷ [])
status-one s = ground arith

max_from-status :
    (ss : List Status) (s : Status) → max_from status_rank s ss ≡ status_by_severity (s ∷ ss)
max_from-status [] s = status-one s
max_from-status (t ∷ ss) s = max_from-status ss _ ∙ status-two s t ss

level-two :
    (l m : RiskLevel) (ls : List RiskLevel)
    → level_by_severity ((if ltb (risk_rank l) (risk_rank m) then m else l) ∷ ls)
      ≡ level_by_severity (l ∷ m ∷ ls)
level-two l m ls = ground arith

level-one : (l : RiskLevel) → l ≡ level_by_severity (l ∷ [])
level-one l = ground arith

max_from-level :
    (ls : List RiskLevel) (l : RiskLevel) → max_from risk_rank l ls ≡ level_by_severity (l ∷ ls)
max_from-level [] l = level-one l
max_from-level (m ∷ ls) l = max_from-level ls _ ∙ level-two l m ls

-- The worst of any list of statuses is BLOCKED when one of them is, else FAIL when one is, else WARN,
-- else INFO, and PASS for all others, the empty list included.
pub worst_status_lem : (ss : List Status) → worst_status ss ≡ status_by_severity ss
unfolding worst_status
worst_status_lem [] = refl
worst_status_lem (s ∷ ss) = max_from-status ss s

-- The same of risk levels, from RED to GREEN.
pub worst_risk_level_lem : (ls : List RiskLevel) → worst_risk_level ls ≡ level_by_severity ls
unfolding worst_risk_level
worst_risk_level_lem [] = refl
worst_risk_level_lem (l ∷ ls) = max_from-level ls l

-- FAIL or BLOCKED.
abbrev pub fails : Status → Bool
fails Status.failed = true
fails Status.blocked = true
fails _ = false

fails-more :
    (s : Status) (ss : List Status)
    → fails (status_by_severity (s ∷ ss)) ≡ (fails s || fails (status_by_severity ss))
fails-more s ss = ground arith

is_failing-fails : (r : GuardResult) → is_failing r ≡ fails r.status
is_failing-fails r = ground arith

empty-if :
    (b : Bool) (r : GuardResult) (rs : List GuardResult) (c : Bool)
    → is_empty rs ≡ not c
    → is_empty (if b then r ∷ rs else rs) ≡ not (b || c)
empty-if true r rs c h = refl
empty-if false r rs c h = h

-- No result fails exactly when the worst status does not.
pub failing_statuses :
    (rs : List GuardResult)
    → is_empty (keep is_failing rs) ≡ not (fails (status_by_severity (map (λ r. r.status) rs)))
failing_statuses [] = refl
failing_statuses (r ∷ rs) =
    empty-if (is_failing r) r (keep is_failing rs) _ (failing_statuses rs)
    ∙ ap (λ b. not (b || fails (status_by_severity (map (λ x. x.status) rs)))) (is_failing-fails r)
    ∙ sym (ap not (fails-more r.status (map (λ x. x.status) rs)))
