-- ===== src/Simulation/Parser/Roundtrip.antt =====
-- Conditions as JSON, and back.
use fin_skill_os.Prelude.{
  ℕ, suc, ◌≡◌, refl, ap, ◌∙◌, Bool, true, ◌&&◌, String, str_eq, Result, ok, err, value_error, ◌>>=◌,
  leb, if◌then◌else◌, arith,
}
use fin_skill_os.Simulation.Floats.{Texts}
use fin_skill_os.Simulation.Conditions.{
  Condition, Terms, Literal, compare, cross, all, any, end, term,
}
use fin_skill_os.Simulation.Parser.{
  JsonValue, Items, array, object, nothing, item, empty, field, is_feature, is_compare_op,
  is_direction, max_depth, max_terms, size, compare_from_json, cross_from_json, of_triple,
  has_terms, condition_from_json, terms_from_json,
}

module _ {F : Type 0} where
  abbrev json_of_literal : Literal F → JsonValue F
  json_of_literal (Literal.number x) = JsonValue.number x
  json_of_literal (Literal.text s) = JsonValue.text s

  abbrev pub single : String → JsonValue F → JsonValue F
  single kind payload = object (field kind payload empty)

  abbrev pub triple : JsonValue F → JsonValue F → JsonValue F → JsonValue F
  triple a b c = array (item a (item b (item c nothing)))

  -- The text of a condition in the grammar of the parser.
  unfoldable mutual
    pub json_of : Condition F → JsonValue F
    json_of (compare name op value) =
        single "compare" (triple (JsonValue.text name) (JsonValue.text op) (json_of_literal value))
    json_of (cross name direction reference) =
        single "cross"
          (triple (JsonValue.text name) (JsonValue.text direction) (JsonValue.text reference))
    json_of (all ts) = single "all" (array (items_of ts))
    json_of (any ts) = single "any" (array (items_of ts))

    items_of : Terms F → Items F
    items_of end = nothing
    items_of (term c ts) = item (json_of c) (items_of ts)

  abbrev pub count_terms : Terms F → ℕ
  count_terms end = 0
  count_terms (term c ts) = suc (count_terms ts)

  abbrev pub suits : String → Literal F → Bool
  suits op (Literal.number x) = true
  suits op (Literal.text s) = str_eq op "=="

  abbrev pub has_room : Terms F → Bool
  has_room ts = leb 1 (count_terms ts) && leb (count_terms ts) max_terms

  -- Known features and operators, at most four levels below the top, and one to eight terms each.
  unfoldable mutual
    pub is_valid : Texts → ℕ → Condition F → Bool
    is_valid tx depth (compare name op value) =
        leb depth max_depth && is_feature tx name && is_compare_op op && suits op value
    is_valid tx depth (cross name direction reference) =
        leb depth max_depth
        && is_feature tx name
        && is_feature tx reference
        && is_direction direction
    is_valid tx depth (all ts) = leb depth max_depth && has_room ts && are_valid tx (suc depth) ts
    is_valid tx depth (any ts) = leb depth max_depth && has_room ts && are_valid tx (suc depth) ts

    pub are_valid : Texts → ℕ → Terms F → Bool
    are_valid tx depth end = true
    are_valid tx depth (term c ts) = is_valid tx depth c && are_valid tx depth ts

module _ (tx : Texts) {F : Type 0} where
  size-items_of : (ts : Terms F) → size (items_of ts) ≡ count_terms ts
  unfolding json_of
  size-items_of end = refl
  size-items_of (term c ts) = ap suc (size-items_of ts)

  compare-printed :
      (name op : String) (value : Literal F)
      → (is_feature tx name && is_compare_op op && suits op value) ≡ true
      → compare_from_json tx (JsonValue.text name) (JsonValue.text op) (json_of_literal value)
        ≡ ok (compare name op value)
  unfolding compare_from_json
  compare-printed name op value h = ground arith

  cross-printed :
      (name direction reference : String)
      → (is_feature tx name && is_feature tx reference && is_direction direction) ≡ true
      → cross_from_json {F = F} tx
          (JsonValue.text name)
          (JsonValue.text direction)
          (JsonValue.text reference)
        ≡ ok (cross name direction reference)
  unfolding cross_from_json
  cross-printed name direction reference h = ground arith

  -- The parser's equations, for use while it stays shut.
  parse_triple :
      (depth : ℕ) (kind : String)
      (f : JsonValue F → JsonValue F → JsonValue F → Result (Condition F)) (a b c : JsonValue F)
      → of_triple f (triple a b c) ≡ f a b c
  parse_triple depth kind f a b c = refl

  parse_compare :
      (depth : ℕ) (payload : JsonValue F)
      → leb depth max_depth ≡ true
      → condition_from_json tx depth (single "compare" payload)
        ≡ of_triple (compare_from_json tx) payload
  unfolding condition_from_json
  parse_compare depth payload h = rw h

  parse_cross :
      (depth : ℕ) (payload : JsonValue F)
      → leb depth max_depth ≡ true
      → condition_from_json tx depth (single "cross" payload)
        ≡ of_triple (cross_from_json tx) payload
  unfolding condition_from_json
  parse_cross depth payload h = rw h

  parse_all :
      (depth : ℕ) (js : Items F)
      → leb depth max_depth ≡ true
      → condition_from_json tx depth (single "all" (array js)) ≡ (
          (if has_terms js then terms_from_json tx (suc depth) js else err value_error) >>= λ ts.
          ok (all ts))
  unfolding condition_from_json
  parse_all depth js h = rw h

  parse_any :
      (depth : ℕ) (js : Items F)
      → leb depth max_depth ≡ true
      → condition_from_json tx depth (single "any" (array js)) ≡ (
          (if has_terms js then terms_from_json tx (suc depth) js else err value_error) >>= λ ts.
          ok (any ts))
  unfolding condition_from_json
  parse_any depth js h = rw h

  parse_item :
      (depth : ℕ) (j : JsonValue F) (js : Items F)
      → terms_from_json tx depth (item j js) ≡ (
          condition_from_json tx depth j >>= λ c.
          terms_from_json tx depth js >>= λ ts. ok (term c ts))
  unfolding condition_from_json
  parse_item depth j js = refl

  parse_end : (depth : ℕ) → terms_from_json {F = F} tx depth nothing ≡ ok end
  unfolding condition_from_json
  parse_end depth = refl

  mutual
    unfolding json_of is_valid

    printed :
        (depth : ℕ) (c : Condition F)
        → is_valid tx depth c ≡ true
        → condition_from_json tx depth (json_of c) ≡ ok c
    printed depth (compare name op value) h =
        parse_compare depth _ (ground arith) ∙ compare-printed name op value (ground arith)
    printed depth (cross name direction reference) h =
        parse_cross depth _ (ground arith) ∙ cross-printed name direction reference (ground arith)
    printed depth (all ts) h =
        parse_all depth _ (ground arith)
        ∙ ground (arith, size-items_of ts, printed_terms (suc depth) ts)
    printed depth (any ts) h =
        parse_any depth _ (ground arith)
        ∙ ground (arith, size-items_of ts, printed_terms (suc depth) ts)

    printed_terms :
        (depth : ℕ) (ts : Terms F)
        → are_valid tx depth ts ≡ true
        → terms_from_json tx depth (items_of ts) ≡ ok ts
    printed_terms depth end h = parse_end depth
    printed_terms depth (term c ts) h =
        parse_item depth _ _ ∙ ground (arith, printed depth c, printed_terms depth ts)

-- Any valid condition, printed as JSON, is parsed as itself.
pub condition_from_json-json_of :
    (tx : Texts) {F : Type 0} (c : Condition F)
    → is_valid tx 0 c ≡ true
    → condition_from_json tx 0 (json_of c) ≡ ok c
condition_from_json-json_of tx c h = printed tx 0 c h
