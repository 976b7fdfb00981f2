-- ===== src/Wording/Scan.antt =====
-- The scan for forbidden wording against a description of what it looks for: where a pattern occurs
-- in a text.
use fin_skill_os.Prelude.{
  ℕ, ◌≡◌, refl, ap, Bool, true, false, Option, none, some, List, [], ◌∷◌, map, String, ◌↔◌, ◌==◌,
  Option-cases, Bool-cases, inl, inr, differ, arith,
}
use fin_skill_os.Wording.Matching.{
  Unicode, Pattern, boundary, exactly, any_case, space, spaces, word_at, first, match_at,
  search_from, search, codes,
}
use fin_skill_os.Wording.{
  direct_advice_patterns, first_match, find_forbidden_term, strip_allowed_market_idioms, join_texts,
}

-- A text in front of which the pattern can match, after the character before it: any way of reading
-- the pattern counts, not only the one that the matcher tries first.
pub data Matches (u : Unicode) : Pattern → Option ℕ → List ℕ → Type 0 where
  done : {b : Option ℕ} {xs : List ℕ} → Matches u [] b xs
  at_boundary :
      {ps : Pattern} {b : Option ℕ} {xs : List ℕ}
      → differ (word_at u b) (word_at u (first u xs)) ≡ true
      → Matches u ps b xs
      → Matches u (boundary ∷ ps) b xs
  one :
      {ps : Pattern} {b : Option ℕ} {c x : ℕ} {xs : List ℕ}
      → (x == c) ≡ true
      → Matches u ps (some x) xs
      → Matches u (exactly c ∷ ps) b (x ∷ xs)
  either_case :
      {ps : Pattern} {b : Option ℕ} {c x : ℕ} {xs : List ℕ}
      → (u.fold x == u.fold c) ≡ true
      → Matches u ps (some x) xs
      → Matches u (any_case c ∷ ps) b (x ∷ xs)
  blank :
      {ps : Pattern} {b : Option ℕ} {x : ℕ} {xs : List ℕ}
      → u.is_space x ≡ true
      → Matches u ps (some x) xs
      → Matches u (space ∷ ps) b (x ∷ xs)
  enough :
      {ps : Pattern} {b : Option ℕ} {xs : List ℕ} → Matches u ps b xs → Matches u (spaces ∷ ps) b xs
  another :
      {ps : Pattern} {b : Option ℕ} {x : ℕ} {xs : List ℕ}
      → u.is_space x ≡ true
      → Matches u (spaces ∷ ps) (some x) xs
      → Matches u (spaces ∷ ps) b (x ∷ xs)

-- The pattern matches somewhere in the text.
pub data Occurs (u : Unicode) (ps : Pattern) : Option ℕ → List ℕ → Type 0 where
  front : {b : Option ℕ} {xs : List ℕ} → Matches u ps b xs → Occurs u ps b xs
  further : {b : Option ℕ} {x : ℕ} {xs : List ℕ} → Occurs u ps (some x) xs → Occurs u ps b (x ∷ xs)

abbrev is_none {ℓ} : {A : Type ℓ} → Option A → Bool
is_none none = true
is_none (some a) = false

module _ (u : Unicode) where
  found_of_enough :
      (ps : Pattern) (b : Option ℕ) (xs : List ℕ)
      → is_none (match_at u ps b xs) ≡ false
      → is_none (match_at u (spaces ∷ ps) b xs) ≡ false
  unfolding match_at
  found_of_enough ps b [] h = h
  found_of_enough ps b (x ∷ xs) h = ground arith

  Matches-found :
      {ps : Pattern} {b : Option ℕ} {xs : List ℕ}
      → Matches u ps b xs
      → is_none (match_at u ps b xs) ≡ false
  unfolding match_at
  Matches-found done = refl
  Matches-found (at_boundary h m) = ground (arith, Matches-found m)
  Matches-found (one h m) = ground (arith, Matches-found m)
  Matches-found (either_case h m) = ground (arith, Matches-found m)
  Matches-found (blank h m) = ground (arith, Matches-found m)
  Matches-found {xs = xs} (enough m) = found_of_enough _ _ xs (Matches-found m)
  Matches-found (another h m) = ground (arith, Matches-found m)

  found-Matches :
      (ps : Pattern) (b : Option ℕ) (xs : List ℕ)
      → is_none (match_at u ps b xs) ≡ false
      → Matches u ps b xs
  unfolding match_at
  found-Matches [] b xs h = done
  found-Matches (boundary ∷ ps) b xs h =
      elim (Bool-cases (differ (word_at u b) (word_at u (first u xs)))) [
        | inl e ↦ at_boundary e (found-Matches ps b xs (ground (arith, e)))
        | inr e ↦ absurd (ground (arith, e))
      ]
  found-Matches (exactly c ∷ ps) b [] h = absurd (ground arith)
  found-Matches (exactly c ∷ ps) b (x ∷ xs) h = elim (Bool-cases (x == c)) [
    | inl e ↦ one e (found-Matches ps (some x) xs (ground (arith, e)))
    | inr e ↦ absurd (ground (arith, e))
  ]
  found-Matches (any_case c ∷ ps) b [] h = absurd (ground arith)
  found-Matches (any_case c ∷ ps) b (x ∷ xs) h = elim (Bool-cases (u.fold x == u.fold c)) [
    | inl e ↦ either_case e (found-Matches ps (some x) xs (ground (arith, e)))
    | inr e ↦ absurd (ground (arith, e))
  ]
  found-Matches (space ∷ ps) b [] h = absurd (ground arith)
  found-Matches (space ∷ ps) b (x ∷ xs) h = elim (Bool-cases (u.is_space x)) [
    | inl e ↦ blank e (found-Matches ps (some x) xs (ground (arith, e)))
    | inr e ↦ absurd (ground (arith, e))
  ]
  found-Matches (spaces ∷ ps) b [] h = enough (found-Matches ps b [] h)
  found-Matches (spaces ∷ ps) b (x ∷ xs) h =
      elim (Bool-cases (is_none (match_at u ps b (x ∷ xs)))) [
        | inr e ↦ enough (found-Matches ps b (x ∷ xs) e)
        | inl e ↦ elim (Bool-cases (u.is_space x)) [
          | inl blank' ↦
              another blank' (found-Matches (spaces ∷ ps) (some x) xs (ground (arith, e, blank')))
          | inr solid ↦ absurd (ground (arith, e, solid))
        ]
      ]

  Occurs-found :
      {ps : Pattern} {b : Option ℕ} {xs : List ℕ}
      → Occurs u ps b xs
      → is_none (search_from u ps b xs) ≡ false
  unfolding search_from
  Occurs-found {xs = []} (front m) = Matches-found m
  Occurs-found {xs = x ∷ xs} (front m) = ground (arith, Matches-found m)
  Occurs-found (further o) = ground (arith, Occurs-found o)

  found-Occurs :
      (ps : Pattern) (b : Option ℕ) (xs : List ℕ)
      → is_none (search_from u ps b xs) ≡ false
      → Occurs u ps b xs
  unfolding search_from
  found-Occurs ps b [] h = front (found-Matches ps b [] h)
  found-Occurs ps b (x ∷ xs) h = elim (Bool-cases (is_none (match_at u ps b (x ∷ xs)))) [
    | inr e ↦ front (found-Matches ps b (x ∷ xs) e)
    | inl e ↦ further (found-Occurs ps (some x) xs (ground (arith, e)))
  ]

  -- None of the patterns occurs.
  abbrev pub Clean : List Pattern → List ℕ → Type 0
  Clean [] xs = Unit
  Clean (p ∷ ps) xs = (¬ Occurs u p none xs) × Clean ps xs

  none-Clean : (ps : List Pattern) (xs : List ℕ) → first_match u ps xs ≡ none → Clean ps xs
  unfolding first_match search
  none-Clean [] xs h = tt
  none-Clean (p ∷ ps) xs h = elim (Option-cases (search_from u p none xs)) [
    | inl e ↦ ((λ o. ground (arith, e, Occurs-found o)), none-Clean ps xs (ground (arith, e)))
    | inr (m, e) ↦ absurd (ground (arith, e))
  ]

  none_of_Clean : (ps : List Pattern) (xs : List ℕ) → Clean ps xs → first_match u ps xs ≡ none
  unfolding first_match search
  none_of_Clean [] xs h = refl
  none_of_Clean (p ∷ ps) xs (missing, h) = elim (Option-cases (search_from u p none xs)) [
    | inl e ↦ rw (e, first_match) (none_of_Clean ps xs h)
    | inr (m, e) ↦ absurd (missing (found-Occurs p none xs (ap is_none e)))
  ]

-- The text that the scan reads: the parts that are not empty, joined by blanks, in lower case, less
-- the allowed idioms.
abbrev pub scanned : Unicode → List String → List ℕ
scanned u ts = strip_allowed_market_idioms u (join_texts (map codes ts))

-- The scan finds nothing exactly when no forbidden pattern occurs anywhere in the text that it
-- reads.
pub find_forbidden_term_lem :
    (u : Unicode) (ts : List String)
    → (find_forbidden_term u ts ≡ none) ↔ Clean u direct_advice_patterns (scanned u ts)
unfolding find_forbidden_term
find_forbidden_term_lem u ts = (
  none-Clean u direct_advice_patterns (scanned u ts),
  none_of_Clean u direct_advice_patterns (scanned u ts),
)
