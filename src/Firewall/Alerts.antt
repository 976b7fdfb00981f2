-- ===== src/Firewall/Alerts.antt =====
-- The alerts table: finskillos/db/repositories/alert_repo.py, and `_persist_alerts` of
-- finskillos/services/risk_guard_service.py. The table is the list of its rows in the order of their
-- insertion; a row id (a UUID) is drawn from a counter, and the clock is an argument. A flush that
-- the database refuses is left out.
pub mod Rows
pub mod Active
pub mod Unique
use fin_skill_os.Prelude.{
  ℕ, suc, Bool, true, false, not, ◌&&◌, Option, none, some, List, [], ◌∷◌, ◌++◌, map, String,
  str_eq, Error, Result, ok, err, lookup_error, ◌==◌, if◌then◌else◌, keep,
}
use fin_skill_os.Decimal.{Decimal}
use fin_skill_os.Dict.{Dict}
use fin_skill_os.Guards.Base.{
  Status, RiskLevel, Severity, Value, GuardResult, RiskGuardReport, risk_level_to_severity,
  status_text, risk_text,
}
use fin_skill_os.Wording.Matching.{Unicode}
use fin_skill_os.Skills.RiskRegistry.{assert_no_forbidden_wording}

-- The JSON payload; a decimal becomes a float, whose type is a parameter.
pub data Json (F : Type 0) : Type 0 where
  null : Json F
  real : F → Json F
  reals : Dict F → Json F
  text : String → Json F
  same : Value → Json F

pub record Payload (F : Type 0) : Type 0 where
  pub evidence : Dict (Json F)
  pub watch_next : List String

pub record Alert (F : Type 0) : Type 0 where
  pub id : ℕ
  pub account_id : Option ℕ
  pub alert_date : ℕ
  pub guard_name : String
  pub severity : Severity
  pub title : String
  pub message : Option String
  pub payload : Option (Payload F)
  pub resolved : Bool
  pub resolved_at : Option ℕ
  pub created_at : ℕ

pub record Table (F : Type 0) : Type 0 where
  pub rows : List (Alert F)
  pub next_id : ℕ

-- `alert.account_id == account_id`, for a column that may be NULL.
abbrev pub is_account : Option ℕ → ℕ → Bool
is_account none a = false
is_account (some b) a = b == a

-- `name in names`
abbrev pub among : String → List String → Bool
among name [] = false
among name (n ∷ ns) = if str_eq n name then true else among name ns

module _ {F : Type 0} (float_of : Decimal → F) where
  coerce_entries : Dict Decimal → Dict F
  coerce_entries [] = []
  coerce_entries ((k, d) ∷ e) = (k, float_of d) ∷ coerce_entries e

  coerce : Value → Json F
  unfolding coerce_entries
  coerce Value.null = Json.null
  coerce (Value.number d) = Json.real (float_of d)
  coerce (Value.numbers d) = Json.reals (coerce_entries d)
  coerce (Value.text s) = Json.text s
  coerce (Value.status s) = Json.text (status_text s)
  coerce (Value.level l) = Json.text (risk_text l)
  coerce v = Json.same v

  coerce_all : Dict Value → Dict (Json F)
  unfolding coerce
  coerce_all [] = []
  coerce_all ((k, v) ∷ d) = (k, coerce v) ∷ coerce_all d

  -- `_jsonable_payload`
  unfoldable pub jsonable_payload : Dict Value → List String → Payload F
  unfolding coerce_all
  jsonable_payload evidence watch_next = record {
    evidence = coerce_all evidence;
    watch_next = watch_next;
  }

module _ {F : Type 0} where
  -- `AlertRepository.create`
  unfoldable pub create :
      Option ℕ
      → ℕ
      → String
      → Severity
      → String
      → Option String
      → Option (Payload F)
      → ℕ
      → Table F
      → Table F
  create account date name severity title message payload clock t = record {
    rows =
        t.rows
        ++ (record {
          id = t.next_id;
          account_id = account;
          alert_date = date;
          guard_name = name;
          severity = severity;
          title = title;
          message = message;
          payload = payload;
          resolved = false;
          resolved_at = none;
          created_at = clock;
        }
            ∷ []);
    next_id = suc t.next_id;
  }

  -- The rows that `_existing_unresolved_alert` selects; of several it takes the first.
  unfoldable pub is_existing : ℕ → String → ℕ → Alert F → Bool
  is_existing account name date a =
      is_account a.account_id account
      && str_eq a.guard_name name
      && a.alert_date == date
      && not a.resolved

  abbrev pub find_first : (Alert F → Bool) → List (Alert F) → Option (Alert F)
  find_first test [] = none
  find_first test (a ∷ as') = if test a then some a else find_first test as'

  -- An object of the session is changed in place.
  abbrev pub change_first : (Alert F → Bool) → (Alert F → Alert F) → List (Alert F) → List (Alert F)
  change_first test f [] = []
  change_first test f (a ∷ as') = if test a then f a ∷ as' else a ∷ change_first test f as'

  abbrev pub resolve_row : ℕ → Alert F → Alert F
  resolve_row now a = record a { resolved = true; resolved_at = some now }

  -- `AlertRepository.resolve`
  unfoldable pub resolve : ℕ → ℕ → Table F → Result (Alert F × Table F)
  resolve id now t = elim (find_first (λ a. a.id == id) t.rows) [
    | none ↦ err lookup_error
    | some a ↦ ok (
      resolve_row now a,
      record t { rows = change_first (λ b. b.id == id) (resolve_row now) t.rows },
    )
  ]

  -- The rows that `resolve_stale` selects, and those of them that it passes over.
  abbrev pub in_scope : Option ℕ → Alert F → Bool
  in_scope none a = not a.resolved
  in_scope (some account) a = not a.resolved && is_account a.account_id account

  abbrev pub is_backed : ℕ → List String → Alert F → Bool
  is_backed date guards a = a.alert_date == date && among a.guard_name guards

  unfoldable pub resolve_if_stale : Option ℕ → ℕ → List String → ℕ → Alert F → Alert F
  resolve_if_stale account date guards now a =
      if in_scope account a && not (is_backed date guards a) then resolve_row now a else a

  -- `AlertRepository.resolve_stale`, without the count that it returns
  unfoldable pub resolve_stale : Option ℕ → ℕ → List String → ℕ → Table F → Table F
  resolve_stale account date guards now t = record t {
    rows = map (resolve_if_stale account date guards now) t.rows;
  }

  -- The selection of `list_active`, before it is ordered for display.
  unfoldable pub active_rows : Option ℕ → Table F → List (Alert F)
  active_rows account t = keep (in_scope account) t.rows

-- `result.status in {STATUS_WARN, STATUS_FAIL, STATUS_BLOCKED}`
abbrev pub is_firing : Status → Bool
is_firing Status.passed = false
is_firing Status.info = false
is_firing Status.warn = true
is_firing Status.failed = true
is_firing Status.blocked = true

module _ (u : Unicode) {F : Type 0} (float_of : Decimal → F) where
  abbrev refresh : GuardResult → Alert F → Alert F
  refresh r a = record a {
    severity = risk_level_to_severity r.risk_level;
    title = r.title;
    message = some r.message;
    payload = some (jsonable_payload float_of r.evidence r.watch_next);
  }

  -- What one firing result does to the table.
  unfoldable pub upsert : ℕ → ℕ → ℕ → GuardResult → Table F → Table F
  upsert account date clock r t = elim (find_first (is_existing account r.guard_name date) t.rows) [
    | none ↦
        create (some account) date r.guard_name (risk_level_to_severity r.risk_level) r.title
          (some r.message) (some (jsonable_payload float_of r.evidence r.watch_next)) clock t
    | some _ ↦ record t {
      rows = change_first (is_existing account r.guard_name date) (refresh r) t.rows;
    }
  ]

  -- The loop over the results. It returns the names that fire; an exception leaves the table as the
  -- loop has changed it so far.
  unfoldable pub persist_each :
      ℕ → ℕ → ℕ → List GuardResult → List String → Table F → Result (List String) × Table F
  persist_each account date clock [] firing t = (ok firing, t)
  persist_each account date clock (r ∷ rs) firing t =
      let skipped = persist_each account date clock rs firing t in
      let stored =
        persist_each account date clock rs (r.guard_name ∷ firing)
          (upsert account date clock r t) in
      if is_firing r.status
      then elim (assert_no_forbidden_wording u r) [ err e ↦ (err e, t) | ok _ ↦ stored ]
      else skipped

  -- `_persist_alerts`
  unfoldable pub persist_alerts : RiskGuardReport → ℕ → Table F → Result (Unit {0}) × Table F
  persist_alerts report clock t =
      let date = report.generated_at.local_date in
      let (outcome, t') = persist_each report.account_id date clock report.results [] t in
      elim outcome [
        | err e ↦ (err e, t')
        | ok firing ↦ (ok tt, resolve_stale (some report.account_id) date firing clock t')
      ]
