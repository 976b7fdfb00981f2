-- ===== src/Tests/Texts.antt =====
-- The scan for forbidden wording on texts.
use fin_skill_os.Prelude.{◌≡◌, refl, ◌↔◌, none, some, [], ◌∷◌}
use fin_skill_os.Wording.{direct_advice_patterns, find_forbidden_term}
use fin_skill_os.Wording.Matching.{codes, search, remove_all}
use fin_skill_os.Wording.Scan.{find_forbidden_term_lem, Clean, scanned}
use fin_skill_os.Samples.{ascii}

scans :
    (find_forbidden_term ascii ("Please buy now" ∷ []) ≡ some (codes "buy"))
    × (find_forbidden_term ascii ("Buyers of selling" ∷ []) ≡ none)
    × (find_forbidden_term ascii ("a sell-the-news case" ∷ "과매수 구간" ∷ []) ≡ none)
    × (find_forbidden_term ascii ("it will" ∷ "" ∷ "rise" ∷ []) ≡ some (codes "will rise"))
unfolding find_forbidden_term search remove_all
scans = (refl, refl, refl, refl)

find_forbidden_term_lem_example :
    (find_forbidden_term ascii ("Cash" ∷ "Low" ∷ []) ≡ none)
    ↔ Clean ascii direct_advice_patterns (scanned ascii ("Cash" ∷ "Low" ∷ []))
find_forbidden_term_lem_example = find_forbidden_term_lem ascii ("Cash" ∷ "Low" ∷ [])
