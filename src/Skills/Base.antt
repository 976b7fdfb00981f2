-- ===== src/Skills/Base.antt =====
-- finskillos/skills/base.py: contexts, rules, skills and what a run returns.
use fin_skill_os.Prelude.{
  ℕ, Bool, true, false, Option, none, some, List, [], String, Result, ok, err, type_error, not,
  str_eq, ◌==◌, if◌then◌else◌,
}
use fin_skill_os.Prelude.Int.{pos, eq_ℤ}
use fin_skill_os.Decimal.{Decimal, minus_decimal, at_least}
use fin_skill_os.Decimal.Parse.{decimal_of_text, decimal_of_int}
use fin_skill_os.Decimal.Format.{plain, int_text, repr}
use fin_skill_os.Dict.{Dict, lookup_or, update}
use fin_skill_os.Guards.Base.{
  Status, RiskLevel, Value, PositionRiskInput, status_rank, status_text, risk_text,
}

abbrev pub SkillContext : Type 0
SkillContext = Dict Value

-- `ctx.get(key)`
abbrev pub get : SkillContext → String → Value
get ctx key = lookup_or Value.null key ctx

-- `Decimal(str(raw))`, or None; the text of any other object is no number.
abbrev pub as_decimal : Value → Option Decimal
as_decimal (Value.number d) = some d
as_decimal (Value.int n) = some (decimal_of_int n)
as_decimal (Value.text s) = decimal_of_text s
as_decimal _ = none

-- `ctx.num(key)`
abbrev pub num : SkillContext → String → Option Decimal
num ctx key = as_decimal (get ctx key)

-- `ctx.merged(extra)`
abbrev pub merged : SkillContext → Dict Value → SkillContext
merged ctx extra = update ctx extra

-- A field of a rule: a value, or a function of the context.
pub data Field (A : Type 0) : Type 0 where
  const : A → Field A
  call : (SkillContext → Result A) → Field A

pub record Rule : Type 0 where
  pub rule_id : String
  pub when : SkillContext → Result Bool
  pub status : Field Status
  pub risk_level : Field RiskLevel
  pub title : Field String
  pub message : Field String
  pub evidence : Option (SkillContext → Result (Dict Value))
  pub watch_next : List String
  pub label : Field String

pub record SkillSpec : Type 0 where
  pub skill_id : String
  pub version : String
  pub title : String
  pub reads : List String
  pub ladder : List Rule
  pub fallback : Rule
  pub derive : Option (SkillContext → Result (Dict Value))
  pub safety : String

pub record SkillResult : Type 0 where
  pub skill_id : String
  pub version : String
  pub status : Status
  pub risk_level : RiskLevel
  pub title : String
  pub message : String
  pub evidence : Dict Value
  pub watch_next : List String
  pub fired_rule_ids : List String
  pub label : String

-- `ran_at` is a point in time, in microseconds.
pub record SkillRunRecord : Type 0 where
  pub skill_id : String
  pub version : String
  pub fired_rule_ids : List String
  pub status : Status
  pub risk_level : RiskLevel
  pub evidence : Dict Value
  pub ran_at : ℕ

-- What a comparison or a format of `ctx.num(key)` needs: TypeError on None.
abbrev pub need : Option Decimal → Result Decimal
need none = err type_error
need (some d) = ok d

abbrev pub always : SkillContext → Result Bool
always ctx = ok true

-- The threshold of the floor rung, `Decimal("-1e30")`.
abbrev pub any_threshold : Decimal
any_threshold = minus_decimal 1_000_000_000_000_000_000_000_000_000_000 0

abbrev reaches : Decimal → Option Decimal → Bool
reaches threshold none = false
reaches threshold (some value) = at_least value threshold

-- `band_rule`: a rung that fires when the feature is at least the threshold.
abbrev pub band_rule :
    String
    → String
    → Decimal
    → Status
    → RiskLevel
    → String
    → Field String
    → (SkillContext → Result (Dict Value))
    → List String
    → Rule
band_rule rule_id feature threshold status risk_level title message evidence watch_next = record {
  rule_id = rule_id;
  when = λ ctx. ok (reaches threshold (num ctx feature));
  status = const status;
  risk_level = const risk_level;
  title = const title;
  message = message;
  evidence = some evidence;
  watch_next = watch_next;
  label = const "";
}

-- `value == "text"`
abbrev pub is_text : Value → String → Bool
is_text (Value.text s) t = str_eq s t
is_text _ t = false

-- `value == STATUS_…`
abbrev pub is_status : Value → Status → Bool
is_status (Value.status s) t = status_rank s == status_rank t
is_status _ t = false

-- `value is not None`
abbrev pub is_there : Value → Bool
is_there Value.null = false
is_there _ = true

-- `bool(value)` for the counts that the rules test.
abbrev pub truthy : Value → Bool
truthy Value.null = false
truthy (Value.int n) = not (eq_ℤ n (pos 0))
truthy _ = true

-- `{value}` in an f-string. No rule shows a list, a dict or another object.
abbrev pub show : Value → String
show Value.null = "None"
show (Value.text s) = s
show (Value.number d) = plain d
show (Value.int n) = int_text n
show (Value.flag b) = if b then "True" else "False"
show (Value.status s) = status_text s
show (Value.level l) = risk_text l
show _ = ""

-- `{value!r}`, likewise
abbrev pub show_repr : Value → String
show_repr (Value.text s) = repr s
show_repr v = show v

-- `ctx.get("positions") or ()`, to be walked; walking an object that is no sequence is a TypeError.
abbrev pub positions_of : Value → Result (List PositionRiskInput)
positions_of Value.null = ok []
positions_of (Value.positions ps) = ok ps
positions_of _ = err type_error
