-- ===== src/Decimal/Parse.antt =====
-- `Decimal(text)`: an optional sign, digits with at most one point, and an optional exponent.
-- Surrounding blanks, underscores, digits beyond ASCII and the names of infinity and NaN are left
-- out.
use Prim.Native.Char.{code}
use fin_skill_os.Prelude.{
  ℕ, ◌+◌, ◌-◌, ◌*◌, ◌^◌, ◌≡◌, refl, Bool, true, false, ◌&&◌, ◌||◌, Option, none, some, List, [],
  ◌∷◌, String, leb, ◌==◌, if◌then◌else◌,
}
use fin_skill_os.Prelude.Int.{ℤ, pos, negsuc}
use fin_skill_os.Decimal.{Decimal, decimal, signed}

unfoldable pub decimal_of_int : ℤ → Decimal
decimal_of_int (pos n) = decimal n 0
decimal_of_int (negsuc n) = signed true (n + 1) 0

codes : String → List ℕ
codes String.[] = []
codes (String.◌∷◌ c s) = code c ∷ codes s

is_digit : ℕ → Bool
is_digit c = leb b'0' c && leb c b'9'

-- The value of a run of digits behind the value so far, how many they are, and what follows.
read_digits : ℕ → ℕ → List ℕ → ℕ × ℕ × List ℕ
unfolding is_digit
read_digits value count [] = (value, count, [])
read_digits value count (c ∷ cs) =
    let more = read_digits (value * 10 + (c - b'0')) (count + 1) cs in
    if is_digit c then more else (value, count, c ∷ cs)

-- The sign in front, and the rest.
read_sign : List ℕ → Bool × List ℕ
read_sign [] = (false, [])
read_sign (c ∷ cs) =
    if c == b'-' then (true, cs) else if c == b'+' then (false, cs) else (false, c ∷ cs)

-- The exponent, whose sign is the flag, on a number that has been read.
with_exponent : Bool → ℕ → ℕ → Bool × ℕ → Decimal
with_exponent negative n places (down, e) =
    if down
    then signed negative n (places + e)
    else signed negative (n * 10 ^ (e - places)) (places - e)

read_exponent : List ℕ → Option (Bool × ℕ)
unfolding read_digits read_sign
read_exponent [] = some (false, 0)
read_exponent (c ∷ cs) =
    let (down, ds) = read_sign cs in
    let (e, count, rest) = read_digits 0 0 ds in
    if (c == b'e') || (c == b'E')
    then (if count == 0 then none else elim rest [ [] ↦ some (down, e) | _ ↦ none ])
    else none

finish : Bool → ℕ → ℕ → ℕ → List ℕ → Option Decimal
unfolding read_exponent with_exponent
finish negative value count places rest = if count == 0 then none else elim (read_exponent rest) [
  | none ↦ none
  | some e ↦ some (with_exponent negative value places e)
]

read_number : Bool → List ℕ → Option Decimal
unfolding finish read_digits
read_number negative cs =
    let (value, count, rest) = read_digits 0 0 cs in
    elim rest [
      | [] ↦ finish negative value count 0 []
      | d ∷ ds ↦
          let (value', places, rest') = read_digits value 0 ds in
          if d == b'.'
          then finish negative value' (count + places) places rest'
          else finish negative value count 0 (d ∷ ds)
    ]

unfoldable pub decimal_of_text : String → Option Decimal
unfolding codes read_sign read_number
decimal_of_text s = let (negative, cs) = read_sign (codes s) in read_number negative cs

readings :
    (decimal_of_text "-12.50" ≡ some (signed true 1250 2))
    × (decimal_of_text "1.5e3" ≡ some (decimal 1500 0))
    × (decimal_of_text "GREEN" ≡ none)
unfolding decimal_of_text
readings = (refl, refl, refl)
