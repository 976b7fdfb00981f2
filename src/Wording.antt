-- ===== src/Wording.antt =====
-- The forbidden-wording scan of finskillos/guards/base.py, on the code points of a text.
pub mod Matching
pub mod Scan
use fin_skill_os.Prelude.{ℕ, Option, none, some, List, [], ◌∷◌, ◌++◌, map, String}
use fin_skill_os.Wording.Matching.{
  Unicode, Pattern, codes, boundary, some_spaces, spaces, ignoring_case, literal, search,
  lower_text, remove_all,
}

abbrev word_only : String → Pattern
word_only s = boundary ∷ ignoring_case s ++ boundary ∷ []

-- Market idioms that hold a forbidden text but are descriptive.
abbrev allowed_market_idioms : List String
allowed_market_idioms = "sell-the-news" ∷ "과매수" ∷ "과매도" ∷ []

abbrev buysell_patterns : List Pattern
buysell_patterns = word_only "BUY" ∷ word_only "SELL" ∷ literal "매수" ∷ literal "매도" ∷ []

abbrev pub coercive_patterns : List Pattern
coercive_patterns =
    (boundary ∷ ignoring_case "will" ++ some_spaces ++ ignoring_case "rise" ++ boundary ∷ [])
    ∷ (boundary ∷ ignoring_case "must" ++ some_spaces ++ ignoring_case "invest" ++ boundary ∷ [])
    ∷ (boundary ∷ ignoring_case "risk-free"
        ++ some_spaces
        ++ ignoring_case "profit"
        ++ boundary ∷ [])
    ∷ (literal "지금" ++ spaces ∷ literal "사라")
    ∷ (literal "지금" ++ spaces ∷ literal "팔아라")
    ∷ (literal "오늘" ++ spaces ∷ literal "팔아")
    ∷ literal "추천합니다"
    ∷ literal "진입하세요"
    ∷ literal "손절하세요"
    ∷ literal "익절하세요"
    ∷ literal "보유하세요"
    ∷ literal "투자하세요"
    ∷ literal "무조건"
    ∷ literal "확실"
    ∷ literal "보장"
    ∷ ignoring_case "guaranteed"
    ∷ literal "반드시"
    ∷ []

abbrev pub direct_advice_patterns : List Pattern
direct_advice_patterns = buysell_patterns ++ coercive_patterns

-- `" ".join(t for t in texts if t)`
unfoldable pub join_texts : List (List ℕ) → List ℕ
join_texts [] = []
join_texts ([] ∷ ts) = join_texts ts
join_texts ((c ∷ t) ∷ ts) = elim (join_texts ts) [
  | [] ↦ c ∷ t
  | d ∷ rest ↦ (c ∷ t) ++ (32 ∷ d ∷ rest)
]

-- Removed one after another.
strip_idioms : List String → List ℕ → List ℕ
strip_idioms [] xs = xs
strip_idioms (idiom ∷ idioms) xs = strip_idioms idioms (remove_all (codes idiom) xs)

module _ (u : Unicode) where
  unfoldable pub strip_allowed_market_idioms : List ℕ → List ℕ
  unfolding strip_idioms lower_text
  strip_allowed_market_idioms xs = strip_idioms allowed_market_idioms (lower_text u xs)

  -- The first pattern that is found decides.
  unfoldable pub first_match : List Pattern → List ℕ → Option (List ℕ)
  first_match [] xs = none
  first_match (p ∷ ps) xs =
      let rest = first_match ps xs in elim (search u p xs) [ some m ↦ some m | none ↦ rest ]

  unfoldable pub find_forbidden_term : List String → Option (List ℕ)
  unfolding first_match join_texts strip_allowed_market_idioms
  find_forbidden_term ts =
      first_match direct_advice_patterns (strip_allowed_market_idioms (join_texts (map codes ts)))

  unfoldable pub find_coercive_term : List String → Option (List ℕ)
  unfolding first_match join_texts strip_allowed_market_idioms
  find_coercive_term ts =
      first_match coercive_patterns (strip_allowed_market_idioms (join_texts (map codes ts)))
