-- ===== src/Prelude/Results.antt =====
-- Python's exceptions as values: a call returns, or it raises.
use Prim.Native.Nat.{ℕ}
use mathlib.Core.Path.{◌≡◌, refl}
use mathlib.Core.List.{List}
use mathlib.Core.Logic.{◌⊎◌, inl, inr}
use native.Mathlib.Omega.{arith}

-- The exceptions that the modelled code can raise. `assertion_error` carries the term found.
pub data Error : Type 0 where
  value_error type_error attribute_error key_error lookup_error : Error
  division_by_zero invalid_operation : Error
  assertion_error : List ℕ → Error

-- What a call comes to.
pub data Result {ℓ} (Value : Type ℓ) : Type ℓ where
  err : Error → Result Value
  ok : Value → Result Value

-- The rest of a function runs on the value that a call returns; an exception passes it by.
infixl 5 ◌>>=◌
abbrev pub ◌>>=◌ {ℓ κ} :
    {Value : Type ℓ} {Next : Type κ} → Result Value → (Value → Result Next) → Result Next
err raised >>= rest = err raised
ok value >>= rest = rest value

-- A check returns nothing that the rest could use.
infixl 5 ◌>>◌
abbrev pub ◌>>◌ {κ} : {Next : Type κ} → Result (Unit {0}) → Result Next → Result Next
err raised >> rest = err raised
ok _ >> rest = rest

pub >>=-eq-ok {ℓ κ} :
    {Value : Type ℓ} {Next : Type κ} (call : Result Value) (rest : Value → Result Next)
    {final : Next}
    → (call >>= rest) ≡ ok final
    → (value : Value) × (call ≡ ok value) × (rest value ≡ ok final)
>>=-eq-ok (err raised) rest h = cc
>>=-eq-ok (ok value) rest h = (value, refl, h)

-- A call returns or raises, and we know which.
pub Result-cases {ℓ} :
    {Value : Type ℓ} (call : Result Value)
    → ((value : Value) × (call ≡ ok value)) ⊎ ((raised : Error) × (call ≡ err raised))
Result-cases (err raised) = inr (raised, refl)
Result-cases (ok value) = inl (value, refl)

pub ok-pair {ℓ κ} :
    {A : Type ℓ} {B : Type κ} (a c : A) (b d : B)
    → ◌≡◌ {A = Result (A × B)} (ok (a, b)) (ok (c, d))
    → (a ≡ c) × (b ≡ d)
ok-pair a c b d h = ground arith

pub ok-one {ℓ} : {A : Type ℓ} (a c : A) → ◌≡◌ {A = Result A} (ok a) (ok c) → a ≡ c
ok-one a c h = ground arith
