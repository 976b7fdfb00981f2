-- ===== src/Simulation/Parser/Sound.antt =====
-- What the parser lets through.
use fin_skill_os.Prelude.{
  ℕ, suc, ◌≡◌, refl, Bool, true, ◌&&◌, String, str_eq, Result, ok, err, value_error, ◌>>=◌, leb,
  inl, inr, Bool-cases, if◌then◌else◌, arith,
}
use fin_skill_os.Simulation.Floats.{Texts}
use fin_skill_os.Simulation.Conditions.{Condition, Terms, all, any, end, term}
use fin_skill_os.Simulation.Parser.{
  JsonValue, Items, array, object, nothing, item, empty, field, max_depth, size, compare_from_json,
  cross_from_json, of_triple, has_terms, condition_from_json, group_from_json, terms_from_json,
}
use fin_skill_os.Simulation.Parser.Roundtrip.{is_valid, are_valid, count_terms, has_room}

module _ (tx : Texts) {F : Type 0} where
  compare-valid :
      (depth : ℕ) (a b c : JsonValue F) {r : Condition F}
      → leb depth max_depth ≡ true
      → compare_from_json tx a b c ≡ ok r
      → is_valid tx depth r ≡ true
  unfolding compare_from_json is_valid
  compare-valid depth a b c {r} fits h = ground arith

  cross-valid :
      (depth : ℕ) (a b c : JsonValue F) {r : Condition F}
      → leb depth max_depth ≡ true
      → cross_from_json tx a b c ≡ ok r
      → is_valid tx depth r ≡ true
  unfolding cross_from_json is_valid
  cross-valid depth a b c {r} fits h = ground arith

  triple_compare-valid :
      (depth : ℕ) (payload : JsonValue F) {r : Condition F}
      → leb depth max_depth ≡ true
      → of_triple (compare_from_json tx) payload ≡ ok r
      → is_valid tx depth r ≡ true
  triple_compare-valid depth (array (item a (item b (item c nothing)))) fits h =
      compare-valid depth a b c fits h
  triple_compare-valid depth _ fits h = absurd (ground arith)

  triple_cross-valid :
      (depth : ℕ) (payload : JsonValue F) {r : Condition F}
      → leb depth max_depth ≡ true
      → of_triple (cross_from_json tx) payload ≡ ok r
      → is_valid tx depth r ≡ true
  triple_cross-valid depth (array (item a (item b (item c nothing)))) fits h =
      cross-valid depth a b c fits h
  triple_cross-valid depth _ fits h = absurd (ground arith)

  abbrev IsGroup : ℕ → Terms F → Type 0
  IsGroup depth ts = (has_room ts && are_valid tx (suc depth) ts) ≡ true

  all-valid :
      (depth : ℕ) (m : Result (Terms F)) {r : Condition F}
      → leb depth max_depth ≡ true
      → ((ts : Terms F) → m ≡ ok ts → IsGroup depth ts)
      → (m >>= λ ts. ok (all ts)) ≡ ok r
      → is_valid tx depth r ≡ true
  unfolding is_valid
  all-valid depth (err e) fits sound h = absurd (ground arith)
  all-valid depth (ok ts) fits sound h = ground (arith, sound ts refl)

  any-valid :
      (depth : ℕ) (m : Result (Terms F)) {r : Condition F}
      → leb depth max_depth ≡ true
      → ((ts : Terms F) → m ≡ ok ts → IsGroup depth ts)
      → (m >>= λ ts. ok (any ts)) ≡ ok r
      → is_valid tx depth r ≡ true
  unfolding is_valid
  any-valid depth (err e) fits sound h = absurd (ground arith)
  any-valid depth (ok ts) fits sound h = ground (arith, sound ts refl)

  -- One of the four kinds, or a refusal.
  abbrev pick :
      Bool
      → String
      → Result (Condition F)
      → Result (Condition F)
      → Result (Terms F)
      → Result (Condition F)
  pick fits kind compared crossed group =
      if fits
      then (if str_eq kind "compare"
          then compared
          else if str_eq kind "cross"
          then crossed
          else if str_eq kind "all"
          then group >>= (λ ts. ok (all ts))
          else if str_eq kind "any"
          then group >>= (λ ts. ok (any ts))
          else err value_error)
      else err value_error

  parse_object :
      (depth : ℕ) (kind : String) (payload : JsonValue F)
      → condition_from_json tx depth (object (field kind payload empty))
        ≡ pick
            (leb depth max_depth)
            kind
            (of_triple (compare_from_json tx) payload)
            (of_triple (cross_from_json tx) payload)
            (group_from_json tx depth payload)
  unfolding condition_from_json
  parse_object depth kind payload = refl

  pick-valid :
      (depth : ℕ) (kind : String) (compared crossed : Result (Condition F))
      (group : Result (Terms F)) (r : Condition F)
      → (leb depth max_depth ≡ true → compared ≡ ok r → is_valid tx depth r ≡ true)
      → (leb depth max_depth ≡ true → crossed ≡ ok r → is_valid tx depth r ≡ true)
      → ((ts : Terms F) → group ≡ ok ts → IsGroup depth ts)
      → pick (leb depth max_depth) kind compared crossed group ≡ ok r
      → is_valid tx depth r ≡ true
  pick-valid depth kind compared crossed group r c1 c2 g h =
      elim (Bool-cases (leb depth max_depth)) [
        | inr deep ↦ absurd (ground arith)
        | inl fits ↦ ground (
          arith,
          c1 fits,
          c2 fits,
          all-valid depth group {r = r} fits g,
          any-valid depth group {r = r} fits g,
        )
      ]

  other_refused :
      (depth : ℕ) {c : Condition F}
      → ◌≡◌ {A = Result (Condition F)} (err value_error) (ok c)
      → is_valid tx depth c ≡ true
  other_refused depth h = absurd (ground arith)

  parse_group :
      (depth : ℕ) (js : Items F)
      → group_from_json tx depth (array js)
        ≡ (if has_terms js then terms_from_json tx (suc depth) js else err value_error)
  unfolding condition_from_json
  parse_group depth js = refl

  abbrev AreTerms : ℕ → ℕ → Terms F → Type 0
  AreTerms depth n ts = (are_valid tx depth ts ≡ true) × (count_terms ts ≡ n)

  of_array :
      (depth : ℕ) (js : Items F) (ts : Terms F)
      → ((us : Terms F)
          → terms_from_json tx (suc depth) js ≡ ok us
          → AreTerms (suc depth) (size js) us)
      → group_from_json tx depth (array js) ≡ ok ts
      → IsGroup depth ts
  of_array depth js ts sound h = ground (arith, rw (parse_group depth js) at h, sound ts)

  item-AreTerms :
      (depth n : ℕ) (m : Result (Condition F)) (rest : Result (Terms F)) (ts : Terms F)
      → ((c : Condition F) → m ≡ ok c → is_valid tx depth c ≡ true)
      → ((us : Terms F) → rest ≡ ok us → AreTerms depth n us)
      → (m >>= λ c. rest >>= λ us. ok (term c us)) ≡ ok ts
      → AreTerms depth (suc n) ts
  unfolding is_valid
  item-AreTerms depth n (err e) rest ts s1 s2 h = absurd (ground arith)
  item-AreTerms depth n (ok c) (err e) ts s1 s2 h = absurd (ground arith)
  item-AreTerms depth n (ok c) (ok us) ts s1 s2 h = ground (arith, s1 c refl, s2 us refl)

  end-AreTerms :
      (depth : ℕ) (ts : Terms F) → ◌≡◌ {A = Result (Terms F)} (ok end) (ok ts) → AreTerms depth 0 ts
  unfolding is_valid
  end-AreTerms depth ts h = ground arith

  no_array_refused :
      (depth : ℕ) (ts : Terms F)
      → ◌≡◌ {A = Result (Terms F)} (err value_error) (ok ts)
      → IsGroup depth ts
  no_array_refused depth ts h = absurd (ground arith)

  mutual
    unfolding condition_from_json

    parsed :
        (depth : ℕ) (j : JsonValue F) (c : Condition F)
        → condition_from_json tx depth j ≡ ok c
        → is_valid tx depth c ≡ true
    parsed depth (object (field kind payload empty)) c h =
        pick-valid depth kind (of_triple (compare_from_json tx) payload)
          (of_triple (cross_from_json tx) payload) (group_from_json tx depth payload) c
          (λ fits. triple_compare-valid depth payload fits)
          (λ fits. triple_cross-valid depth payload fits) (parsed_array depth payload) h
    parsed depth _ c h = other_refused depth h

    parsed_array :
        (depth : ℕ) (j : JsonValue F) (ts : Terms F)
        → group_from_json tx depth j ≡ ok ts
        → IsGroup depth ts
    parsed_array depth (array js) ts h = of_array depth js ts (parsed_terms (suc depth) js) h
    parsed_array depth _ ts h = no_array_refused depth ts h

    parsed_terms :
        (depth : ℕ) (js : Items F) (ts : Terms F)
        → terms_from_json tx depth js ≡ ok ts
        → AreTerms depth (size js) ts
    parsed_terms depth nothing ts h = end-AreTerms depth ts h
    parsed_terms depth (item j js) ts h =
        item-AreTerms depth (size js) (condition_from_json tx depth j) (terms_from_json tx depth js)
          ts (parsed depth j) (parsed_terms depth js) h

-- A parsed condition is valid: known features, operators and directions, a number behind an order, at
-- most four levels below the top, and one to eight terms in a group.
pub condition_from_json-valid :
    (tx : Texts) {F : Type 0} (j : JsonValue F) (c : Condition F)
    → condition_from_json tx 0 j ≡ ok c
    → is_valid tx 0 c ≡ true
condition_from_json-valid tx j c h = parsed tx 0 j c h
