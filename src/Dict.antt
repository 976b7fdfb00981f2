-- ===== src/Dict.antt =====
-- A Python dict with text keys, in insertion order.
pub mod Insert
use fin_skill_os.Prelude.{
  ◌+◌, Bool, true, false, Option, none, some, List, [], ◌∷◌, String, str_eq, if◌then◌else◌,
}

abbrev pub Dict {ℓ} : Type ℓ → Type ℓ
Dict V = List (String × V)

module _ {ℓ} {V : Type ℓ} where
  -- `d.get(k)`
  abbrev pub lookup : String → Dict V → Option V
  lookup k [] = none
  lookup k ((j, v) ∷ d) = if str_eq j k then some v else lookup k d

  -- `d.get(k, default)`
  abbrev pub lookup_or : V → String → Dict V → V
  lookup_or default k d = elim (lookup k d) [ none ↦ default | some v ↦ v ]

  -- `d[k] = v`
  abbrev pub insert : String → V → Dict V → Dict V
  insert k v [] = (k, v) ∷ []
  insert k v ((j, w) ∷ d) = if str_eq j k then (j, v) ∷ d else (j, w) ∷ insert k v d

  -- `d.update(e)`, and with an empty `d` the dict of a display, where a later entry of a key wins
  abbrev pub update : Dict V → Dict V → Dict V
  update d [] = d
  update d ((k, v) ∷ e) = update (insert k v d) e

  -- `{k: v for k, v in d.items() if k != skip}`
  abbrev pub without : String → Dict V → Dict V
  without skip [] = []
  without skip ((j, v) ∷ d) = if str_eq j skip then without skip d else (j, v) ∷ without skip d
