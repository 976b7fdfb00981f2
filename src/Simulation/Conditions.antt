-- ===== src/Simulation/Conditions.antt =====
-- finskillos/simulation/conditions.py
use fin_skill_os.Prelude.{
  Bool, true, false, ◌&&◌, ◌||◌, Option, none, some, List, [], ◌∷◌, ◌++◌, String, str_eq,
  if◌then◌else◌,
}
use fin_skill_os.Dict.{Dict, lookup}
use fin_skill_os.Simulation.Floats.{Floats}

-- A value of a feature row.
pub data Feature (F : Type 0) : Type 0 where
  missing : Feature F
  number : F → Feature F
  text : String → Feature F

abbrev pub FeatureRow : Type 0 → Type 0
FeatureRow F = Dict (Feature F)

-- `row.get(name)`
abbrev pub feature : {F : Type 0} → String → FeatureRow F → Feature F
feature name row = elim (lookup name row) [ none ↦ missing | some v ↦ v ]

-- The literal of a comparison.
pub data Literal (F : Type 0) : Type 0 where
  number : F → Literal F
  text : String → Literal F

mutual
  pub data Condition (F : Type 0) : Type 0 where
    compare : String → String → Literal F → Condition F
    cross : String → String → String → Condition F
    all : Terms F → Condition F
    any : Terms F → Condition F

  pub data Terms (F : Type 0) : Type 0 where
    end : Terms F
    term : Condition F → Terms F → Terms F

module _ {F : Type 0} (fl : Floats F) where
  -- `left == value`
  abbrev same_value : Feature F → Literal F → Bool
  same_value (Feature.number x) (Literal.number y) = fl.equal x y
  same_value (Feature.text s) (Literal.text t) = str_eq s t
  same_value _ _ = false

  abbrev ordered : String → F → F → Bool
  ordered op x y =
      if str_eq op "<"
      then fl.less x y
      else if str_eq op "<="
      then fl.at_most x y
      else if str_eq op ">"
      then fl.less y x
      else if str_eq op ">="
      then fl.at_most y x
      else false

  abbrev ordered_values : String → Feature F → Literal F → Bool
  ordered_values op (Feature.number x) (Literal.number y) = ordered op x y
  ordered_values op _ _ = false

  -- `_compare`
  unfoldable pub compare_holds : FeatureRow F → String → String → Literal F → Bool
  compare_holds cur name op value =
      if str_eq op "=="
      then same_value (feature name cur) value
      else ordered_values op (feature name cur) value

  abbrev crosses : String → Feature F → Feature F → Feature F → Feature F → Bool
  crosses direction (Feature.number a0) (Feature.number b0) (Feature.number a1)
        (Feature.number b1) =
      if str_eq direction "above"
      then fl.at_most a0 b0 && fl.less b1 a1
      else if str_eq direction "below"
      then fl.at_most b0 a0 && fl.less a1 b1
      else false
  crosses direction _ _ _ _ = false

  -- `_cross`
  unfoldable pub cross_holds :
      FeatureRow F → Option (FeatureRow F) → String → String → String → Bool
  cross_holds cur none name direction reference = false
  cross_holds cur (some prev) name direction reference =
      crosses direction (feature name prev) (feature reference prev) (feature name cur)
        (feature reference cur)

  unfoldable mutual
    pub evaluate : Condition F → FeatureRow F → Option (FeatureRow F) → Bool
    evaluate (compare name op value) cur prev = compare_holds cur name op value
    evaluate (cross name direction reference) cur prev =
        cross_holds cur prev name direction reference
    evaluate (all ts) cur prev = every ts cur prev
    evaluate (any ts) cur prev = some_holds ts cur prev

    every : Terms F → FeatureRow F → Option (FeatureRow F) → Bool
    every end cur prev = true
    every (term c ts) cur prev = evaluate c cur prev && every ts cur prev

    some_holds : Terms F → FeatureRow F → Option (FeatureRow F) → Bool
    some_holds end cur prev = false
    some_holds (term c ts) cur prev = evaluate c cur prev || some_holds ts cur prev

module _ {F : Type 0} where
  -- `referenced_features`, in the order of the text, repetitions included.
  unfoldable mutual
    pub referenced_features : Condition F → List String
    referenced_features (compare name op (Literal.number x)) = name ∷ []
    referenced_features (compare name op (Literal.text s)) = name ∷ s ∷ []
    referenced_features (cross name direction reference) = name ∷ reference ∷ []
    referenced_features (all ts) = features_of ts
    referenced_features (any ts) = features_of ts

    features_of : Terms F → List String
    features_of end = []
    features_of (term c ts) = referenced_features c ++ features_of ts
