-- ===== src/Wording/Matching.antt =====
-- Python's `re` and text methods, as far as the wording patterns use them.
use Prim.Native.Char.{code}
use fin_skill_os.Prelude.{
  ℕ, zero, suc, Bool, true, false, Option, none, some, List, [], ◌∷◌, ◌++◌, map, String, ◌==◌,
  length, differ, if◌then◌else◌,
}

-- What Python's Unicode database says of a code point: whether `\w` and `\s` match it, its
-- `str.lower()`, and the letter that stands for its class under IGNORECASE.
pub record Unicode : Type 0 where
  pub is_word : ℕ → Bool
  pub is_space : ℕ → Bool
  pub lower : ℕ → List ℕ
  pub fold : ℕ → ℕ

-- `\b`, a character, a character under IGNORECASE, `\s` and `\s*`.
pub data Element : Type 0 where
  boundary : Element
  exactly : ℕ → Element
  any_case : ℕ → Element
  space : Element
  spaces : Element

abbrev pub Pattern : Type 0
Pattern = List Element

abbrev pub codes : String → List ℕ
codes String.[] = []
codes (String.◌∷◌ c s) = code c ∷ codes s

abbrev pub literal : String → Pattern
literal s = map exactly (codes s)

abbrev pub ignoring_case : String → Pattern
ignoring_case s = map any_case (codes s)

-- `\s+`
abbrev pub some_spaces : Pattern
some_spaces = space ∷ spaces ∷ []

module _ (u : Unicode) where
  abbrev pub word_at : Option ℕ → Bool
  word_at none = false
  word_at (some c) = u.is_word c

  abbrev pub first : List ℕ → Option ℕ
  first [] = none
  first (x ∷ xs) = some x

  abbrev prepend : ℕ → Option (List ℕ) → Option (List ℕ)
  prepend x none = none
  prepend x (some m) = some (x ∷ m)

  abbrev or_else : Option (List ℕ) → Option (List ℕ) → Option (List ℕ)
  or_else none other = other
  or_else (some m) other = some m

  -- The text that the pattern matches at the front, after the character before it.
  unfoldable pub match_at : Pattern → Option ℕ → List ℕ → Option (List ℕ)
  match_at [] before xs = some []
  match_at (boundary ∷ ps) before xs =
      let rest = match_at ps before xs in
      if differ (word_at before) (word_at (first xs)) then rest else none
  match_at (exactly c ∷ ps) before [] = none
  match_at (exactly c ∷ ps) before (x ∷ xs) =
      let rest = prepend x (match_at ps (some x) xs) in if x == c then rest else none
  match_at (any_case c ∷ ps) before [] = none
  match_at (any_case c ∷ ps) before (x ∷ xs) =
      let rest = prepend x (match_at ps (some x) xs) in if u.fold x == u.fold c then rest else none
  match_at (space ∷ ps) before [] = none
  match_at (space ∷ ps) before (x ∷ xs) =
      let rest = prepend x (match_at ps (some x) xs) in if u.is_space x then rest else none
  match_at (spaces ∷ ps) before [] = match_at ps before []
  match_at (spaces ∷ ps) before (x ∷ xs) =
      let more = prepend x (match_at (spaces ∷ ps) (some x) xs) in
      let here = match_at ps before (x ∷ xs) in if u.is_space x then or_else more here else here

  unfoldable pub search_from : Pattern → Option ℕ → List ℕ → Option (List ℕ)
  unfolding match_at
  search_from ps before [] = match_at ps before []
  search_from ps before (x ∷ xs) =
      let later = search_from ps (some x) xs in or_else (match_at ps before (x ∷ xs)) later

  -- `pattern.search(text)`, as the text that matched
  unfoldable pub search : Pattern → List ℕ → Option (List ℕ)
  unfolding search_from
  search ps xs = search_from ps none xs

  -- `text.lower()`
  unfoldable pub lower_text : List ℕ → List ℕ
  lower_text [] = []
  lower_text (x ∷ xs) = u.lower x ++ lower_text xs

-- Whether the first text stands at the front of the second.
abbrev begins : List ℕ → List ℕ → Bool
begins [] ys = true
begins (x ∷ xs) [] = false
begins (x ∷ xs) (y ∷ ys) = if x == y then begins xs ys else false

remove_from : ℕ → List ℕ → ℕ → List ℕ → List ℕ
remove_from size idiom skip [] = []
remove_from size idiom (suc skip) (x ∷ xs) = remove_from size idiom skip xs
remove_from size idiom zero (x ∷ xs) =
    let cut = remove_from size idiom size xs in
    let kept = x ∷ remove_from size idiom zero xs in if begins idiom (x ∷ xs) then cut else kept

-- `text.replace(idiom, "")`, for an idiom that is not empty; after an occurrence its other
-- characters are passed over.
unfoldable pub remove_all : List ℕ → List ℕ → List ℕ
unfolding remove_from
remove_all [] xs = xs
remove_all (c ∷ cs) xs = remove_from (length cs) (c ∷ cs) zero xs
