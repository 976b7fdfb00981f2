-- ===== src/Dict/Insert.antt =====
-- What an insertion does to a dict.
use fin_skill_os.Prelude.{
  ◌≡◌, refl, ap, true, false, none, some, [], ◌∷◌, ◌++◌, String, str_eq, eq_iff, ◌∙◌, Bool-cases,
  inl, inr, arith,
}
use fin_skill_os.Dict.{Dict, lookup, insert}

pub str_eq_self : (s : String) → str_eq s s ≡ true
str_eq_self s = (eq_iff s s).1 refl

module _ {ℓ} {V : Type ℓ} where
  pub lookup-insert : (k : String) (v : V) (d : Dict V) → lookup k (insert k v d) ≡ some v
  lookup-insert k v [] = rw (str_eq_self k)
  lookup-insert k v ((j, w) ∷ d) = ground (arith, lookup-insert k v d)

  pub lookup-insert_of_other :
      (k j : String) (v : V) (d : Dict V)
      → str_eq k j ≡ false
      → lookup j (insert k v d) ≡ lookup j d
  lookup-insert_of_other k j v [] h = rw h
  lookup-insert_of_other k j v ((i, w) ∷ d) h = elim (Bool-cases (str_eq i k)) [
    | inr other ↦ ground (arith, other, lookup-insert_of_other k j v d h)
    | inl same ↦
        let differs = ap (λ x. str_eq x j) ((eq_iff i k).0 same) ∙ h in
        ground (arith, same, differs)
  ]

  pub insert_of_missing :
      (k : String) (v : V) (d : Dict V) → lookup k d ≡ none → insert k v d ≡ d ++ (k, v) ∷ []
  insert_of_missing k v [] h = refl
  insert_of_missing k v ((j, w) ∷ d) h = ground (arith, insert_of_missing k v d)
