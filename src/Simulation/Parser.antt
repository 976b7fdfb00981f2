-- ===== src/Simulation/Parser.antt =====
-- finskillos/simulation/spec_json.py: authored strategies. A text where an array is asked for is
-- refused like every other value that is none: none of its characters is a feature or an object.
pub mod Roundtrip
pub mod Sound
use Prim.Native.String
use fin_skill_os.Prelude.{
  ℕ, zero, suc, ◌+◌, ◌*◌, Bool, true, false, not, ◌&&◌, ◌||◌, Option, none, some, List, [], ◌∷◌,
  String, str_eq, Result, ok, err, value_error, type_error, ◌>>=◌, ◌>>◌, leb, ◌==◌, if◌then◌else◌,
}
use fin_skill_os.Dict.{Dict, lookup}
use fin_skill_os.Wording.Matching.{codes}
use fin_skill_os.Simulation.Floats.{Floats, Texts, is_nought}
use fin_skill_os.Simulation.Conditions.{
  Condition, Terms, Literal, compare, cross, all, any, end, term,
}

-- A JSON value; the keys of an object are distinct.
mutual
  pub data JsonValue (F : Type 0) : Type 0 where
    null : JsonValue F
    boolean : Bool → JsonValue F
    number : F → JsonValue F
    text : String → JsonValue F
    array : Items F → JsonValue F
    object : Fields F → JsonValue F

  pub data Items (F : Type 0) : Type 0 where
    nothing : Items F
    item : JsonValue F → Items F → Items F

  pub data Fields (F : Type 0) : Type 0 where
    empty : Fields F
    field : String → JsonValue F → Fields F → Fields F

-- `StrategySpec` of finskillos/simulation/engine.py
pub record StrategySpec (F : Type 0) : Type 0 where
  pub strategy_id : String
  pub name : String
  pub description : String
  pub universe : List String
  pub entry : Condition F
  pub exit : Condition F
  pub timeframe : String

abbrev pub max_depth : ℕ
max_depth = 4

abbrev pub max_terms : ℕ
max_terms = 8

-- What follows the front, if the text begins with it.
abbrev after : List ℕ → List ℕ → Option (List ℕ)
after [] cs = some cs
after (x ∷ xs) [] = none
after (x ∷ xs) (c ∷ cs) = if x == c then after xs cs else none

-- The rest of `\d+$`, which also matches before a last line feed, after a number so far.
digits_from : Texts → ℕ → List ℕ → Option ℕ
digits_from tx n [] = some n
digits_from tx n (c ∷ cs) = elim (tx.digit_of c) [
  | some d ↦ digits_from tx (n * 10 + d) cs
  | none ↦ elim cs [ [] ↦ if c == 10 then some n else none | _ ↦ none ]
]

abbrev digits : Texts → Option (List ℕ) → Option ℕ
digits tx none = none
digits tx (some []) = none
digits tx (some (c ∷ cs)) = elim (tx.digit_of c) [ none ↦ none | some d ↦ digits_from tx d cs ]

-- The window that `^sma_(\d+)$` reads, for the front `sma_`.
unfoldable pub window_of : Texts → String → String → Option ℕ
unfolding digits_from
window_of tx front name = digits tx (after (codes front) (codes name))

abbrev is_some : Option ℕ → Bool
is_some none = false
is_some (some n) = true

-- `_is_feature`, for a text
unfoldable pub is_feature : Texts → String → Bool
is_feature tx name =
    str_eq name "close"
    || str_eq name "ret"
    || str_eq name "drawdown_pct"
    || str_eq name "rsi_14"
    || str_eq name "trend"
    || str_eq name "regime"
    || is_some (window_of tx "sma_" name)
    || is_some (window_of tx "ema_" name)

abbrev pub is_compare_op : String → Bool
is_compare_op op =
    str_eq op "<" || str_eq op "<=" || str_eq op ">" || str_eq op ">=" || str_eq op "=="

abbrev pub is_direction : String → Bool
is_direction d = str_eq d "above" || str_eq d "below"

-- `s[:n]`
abbrev take_text : ℕ → String → String
take_text zero s = ""
take_text (suc n) String.[] = ""
take_text (suc n) (String.◌∷◌ c s) = String.◌∷◌ c (take_text n s)

module _ {F : Type 0} where
  abbrev pub size : Items F → ℕ
  size nothing = 0
  size (item j js) = suc (size js)

  -- `_require_feature`
  abbrev require_feature : Texts → JsonValue F → Result String
  require_feature tx (JsonValue.text s) = if is_feature tx s then ok s else err value_error
  require_feature tx _ = err value_error

  -- `op not in {…}`: a value that cannot be hashed is a TypeError.
  abbrev require_word : (String → Bool) → JsonValue F → Result String
  require_word test (JsonValue.text s) = if test s then ok s else err value_error
  require_word test (array js) = err type_error
  require_word test (object fs) = err type_error
  require_word test _ = err value_error

  abbrev require_literal : String → JsonValue F → Result (Literal F)
  require_literal op (JsonValue.number x) = ok (Literal.number x)
  require_literal op (JsonValue.text s) =
      if str_eq op "==" then ok (Literal.text s) else err value_error
  require_literal op _ = err value_error

  unfoldable pub compare_from_json :
      Texts → JsonValue F → JsonValue F → JsonValue F → Result (Condition F)
  compare_from_json tx feature op value = do
    name ← require_feature tx feature
    word ← require_word is_compare_op op
    literal ← require_literal word value
    ok (compare name word literal)

  -- The reference is checked before the direction.
  unfoldable pub cross_from_json :
      Texts → JsonValue F → JsonValue F → JsonValue F → Result (Condition F)
  cross_from_json tx feature direction reference = do
    name ← require_feature tx feature
    other ← require_feature tx reference
    word ← require_word is_direction direction
    ok (cross name word other)

  abbrev pub has_terms : Items F → Bool
  has_terms js = leb 1 (size js) && leb (size js) max_terms

  abbrev pub of_triple :
      (JsonValue F → JsonValue F → JsonValue F → Result (Condition F))
      → JsonValue F
      → Result (Condition F)
  of_triple f (array (item a (item b (item c nothing)))) = f a b c
  of_triple f _ = err value_error

  unfoldable mutual
    pub condition_from_json : Texts → ℕ → JsonValue F → Result (Condition F)
    condition_from_json tx depth (object (field kind payload empty)) =
        if leb depth max_depth
        then (if str_eq kind "compare"
            then of_triple (compare_from_json tx) payload
            else if str_eq kind "cross"
            then of_triple (cross_from_json tx) payload
            else if str_eq kind "all"
            then group_from_json tx depth payload >>= (λ ts. ok (all ts))
            else if str_eq kind "any"
            then group_from_json tx depth payload >>= (λ ts. ok (any ts))
            else err value_error)
        else err value_error
    condition_from_json tx depth _ = err value_error

    -- The list of sub-conditions that `all` and `any` hold.
    group_from_json : Texts → ℕ → JsonValue F → Result (Terms F)
    group_from_json tx depth (array js) =
        if has_terms js then terms_from_json tx (suc depth) js else err value_error
    group_from_json tx depth _ = err value_error

    terms_from_json : Texts → ℕ → Items F → Result (Terms F)
    terms_from_json tx depth nothing = ok end
    terms_from_json tx depth (item j js) =
        condition_from_json tx depth j >>= λ c. terms_from_json tx depth js >>= λ ts. ok (term c ts)

  abbrev pub field_of : String → Fields F → Option (JsonValue F)
  field_of key empty = none
  field_of key (field k v fs) = if str_eq k key then some v else field_of key fs

  abbrev name_of : Texts → Option (JsonValue F) → String
  name_of tx (some (JsonValue.text s)) = if str_eq (tx.strip s) "" then "사용자 전략" else tx.strip s
  name_of tx _ = "사용자 전략"

  abbrev ticker_of : Texts → Option (JsonValue F) → Result String
  ticker_of tx (some (JsonValue.text s)) =
      if str_eq (tx.strip s) "" then err value_error else ok (tx.upper (tx.strip s))
  ticker_of tx _ = err value_error

  abbrev required : Option (JsonValue F) → Result (JsonValue F)
  required none = err value_error
  required (some j) = ok j

  -- Whether a JSON value counts as true.
  abbrev truthy : Floats F → JsonValue F → Bool
  truthy fl null = false
  truthy fl (boolean b) = b
  truthy fl (JsonValue.number x) = not (is_nought fl x)
  truthy fl (JsonValue.text s) = not (str_eq s "")
  truthy fl (array nothing) = false
  truthy fl (object empty) = false
  truthy fl _ = true

  -- `str(…)` of a description, for which `show` stands.
  abbrev description_of : Floats F → (JsonValue F → String) → Option (JsonValue F) → String
  description_of fl show none = "agent가 설계한 자유형 전략"
  description_of fl show (some j) = if truthy fl j then show j else "agent가 설계한 자유형 전략"

  unfoldable pub strategy_spec_from_json :
      Floats F → Texts → (JsonValue F → String) → JsonValue F → Result (StrategySpec F)
  strategy_spec_from_json fl tx show (object fs) = do
    ticker ← ticker_of tx (field_of "ticker" fs)
    entry ← required (field_of "entry" fs)
    exit ← required (field_of "exit" fs)
    entry_condition ← condition_from_json tx 0 entry
    exit_condition ← condition_from_json tx 0 exit
    ok (record {
      strategy_id = "CUSTOM";
      name = take_text 80 (name_of tx (field_of "name" fs));
      description = take_text 280 (description_of fl show (field_of "description" fs));
      universe = ticker ∷ [];
      entry = entry_condition;
      exit = exit_condition;
      timeframe = "1d";
    })
  strategy_spec_from_json fl tx show _ = err value_error
