-- ===== src/Simulation/Floats.antt =====
-- What the simulation uses of the machine's floats and of Python's texts: parameters, since neither
-- is code of the repository. Nothing is assumed of them.
use fin_skill_os.Prelude.{
  ℕ, Bool, Option, List, String, Result, err, division_by_zero, ok, if◌then◌else◌,
}

-- Sums are the builtin `sum`, which compensates rounding. `power` and `parse` are `**` and `float(…)`
-- of a text: they can raise.
pub record Floats (F : Type 0) : Type 0 where
  pub nought : F
  pub one : F
  pub hundred : F
  pub minus_infinity : F
  pub of_nat : ℕ → F
  pub plus : F → F → F
  pub minus : F → F → F
  pub times : F → F → F
  pub over : F → F → F
  pub sum : List F → F
  pub root : F → F
  pub magnitude : F → F
  pub power : F → F → Result F
  pub parse : String → Result F
  pub less : F → F → Bool
  pub at_most : F → F → Bool
  pub equal : F → F → Bool

-- Texts as Python reads them: the value of a decimal digit, `str.strip`, `str.upper`.
pub record Texts : Type 0 where
  pub digit_of : ℕ → Option ℕ
  pub strip : String → String
  pub upper : String → String

module _ {F : Type 0} (fl : Floats F) where
  -- `not x`
  abbrev pub is_nought : F → Bool
  is_nought x = fl.equal x fl.nought

  -- `x / y`: ZeroDivisionError by 0.
  abbrev pub quotient : F → F → Result F
  quotient x y = if is_nought y then err division_by_zero else ok (fl.over x y)

  -- `max(x, y)` and `min(x, y)`; the first stays unless the second is beyond it.
  abbrev pub larger : F → F → F
  larger x y = if fl.less x y then y else x

  abbrev pub smaller : F → F → F
  smaller x y = if fl.less y x then y else x
