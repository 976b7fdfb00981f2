-- ===== src/Decimal/Format.antt =====
-- The formats of f-strings: `{x:.2f}`, `{x:.1%}`, `{x:,.0f}`, and `str` of a value of few places.
use Prim.Native.String.{◌++◌ as append}
use Prim.Native.Char.{code}
use mathlib.Core.Logic.{dite}
use mathlib.Core.WellFounded.{Acc}
use native.Mathlib.Decide.{dec_lt}
use fin_skill_os.Prelude.{
  ℕ, zero, suc, ◌+◌, ◌*◌, ◌/◌, ◌%◌, ◌^◌, ◌<◌, ◌≡◌, refl, Bool, true, false, not, ◌&&◌, ◌||◌, Option,
  none, some, List, [], ◌∷◌, String, arith, ltb, ◌==◌, if◌then◌else◌,
}
use fin_skill_os.Prelude.Int.{ℤ, pos, negsuc}
use fin_skill_os.Prelude.Digits.{lt_wf}
use fin_skill_os.Decimal.{Decimal, decimal, minus_decimal, round_to}

-- Texts are joined by `+`, as in the source.
infixr 65 ◌+s◌
abbrev pub ◌+s◌ : String → String → String
s +s t = append s t

digit : ℕ → String
digit d =
    if d == 0
    then "0"
    else if d == 1
    then "1"
    else if d == 2
    then "2"
    else if d == 3
    then "3"
    else if d == 4
    then "4"
    else if d == 5
    then "5"
    else if d == 6
    then "6"
    else if d == 7
    then "7"
    else if d == 8
    then "8"
    else "9"

digits_acc : (n : ℕ) → Acc ◌<◌ n → String
unfolding digit
digits_acc n (Acc.intro _ smaller) =
    dite (dec_lt 9 n) (λ h. digits_acc (n / 10) (smaller (n / 10) (omega arith)) +s digit (n % 10))
      (λ _. digit n)

-- `str(n)`
unfoldable pub nat_text : ℕ → String
unfolding digits_acc lt_wf dec_lt
nat_text n = digits_acc n (lt_wf.apply n)

-- The last `places` digits of a number, zeros first.
last_digits : ℕ → ℕ → String
unfolding digit
last_digits zero n = ""
last_digits (suc k) n = last_digits k (n / 10) +s digit (n % 10)

grouped_acc : (n : ℕ) → Acc ◌<◌ n → String
unfolding nat_text last_digits
grouped_acc n (Acc.intro _ smaller) =
    dite (dec_lt 999 n)
      (λ h. grouped_acc (n / 1000) (smaller (n / 1000) (omega arith)) +s "," +s last_digits 3 n)
      (λ _. nat_text n)

sign_text : Decimal → String
sign_text a = if a.negative then "-" else ""

-- `{a:.2f}` is `fixed 2 a`.
unfoldable pub fixed : ℕ → Decimal → String
unfolding nat_text last_digits sign_text round_to
fixed places a =
    let c = round_to places a in
    if places == 0
    then sign_text a +s nat_text c
    else sign_text a +s nat_text (c / 10 ^ places) +s "." +s last_digits places c

-- `{a:,.0f}`
unfoldable pub grouped : Decimal → String
unfolding grouped_acc lt_wf dec_lt sign_text round_to
grouped a = let c = round_to 0 a in sign_text a +s grouped_acc c (lt_wf.apply c)

-- `{a:.1%}` is `percent 1 a`.
unfoldable pub percent : ℕ → Decimal → String
unfolding fixed
percent places a = fixed places (record a { coefficient = a.coefficient * 100 }) +s "%"

-- `str(a)` in fixed-point notation, which Python uses from 0.000001 on.
unfoldable pub plain : Decimal → String
unfolding fixed
plain a = fixed a.scale a

-- `str(n)` of an integer
unfoldable pub int_text : ℤ → String
unfolding nat_text
int_text (pos n) = nat_text n
int_text (negsuc n) = "-" +s nat_text (n + 1)

-- `{x}` of an optional text
abbrev pub option_text : Option String → String
option_text none = "None"
option_text (some s) = s

-- `separator.join(xs)`
abbrev pub join : String → List String → String
join separator [] = ""
join separator (x ∷ []) = x
join separator (x ∷ y ∷ xs) = x +s separator +s join separator (y ∷ xs)

holds : ℕ → String → Bool
holds c String.[] = false
holds c (String.◌∷◌ d s) = if code d == c then true else holds c s

hex_digit : ℕ → String
unfolding digit
hex_digit d =
    if d == 10
    then "a"
    else if d == 11
    then "b"
    else if d == 12
    then "c"
    else if d == 13
    then "d"
    else if d == 14
    then "e"
    else if d == 15
    then "f"
    else digit d

escaped_char : ℕ → ℕ → String → String
unfolding hex_digit
escaped_char delimiter c s =
    if (c == delimiter) || (c == 92)
    then "\\" +s s
    else if c == 10
    then "\\n"
    else if c == 13
    then "\\r"
    else if c == 9
    then "\\t"
    else if ltb c 32 || c == 127
    then "\\x" +s hex_digit (c / 16) +s hex_digit (c % 16)
    else s

escaped : ℕ → String → String
unfolding escaped_char
escaped delimiter String.[] = ""
escaped delimiter (String.◌∷◌ c s) =
    escaped_char delimiter (code c) (String.◌∷◌ c "") +s escaped delimiter s

-- `repr(s)`: in single quotes, or in double ones where only single ones stand inside; backslashes
-- and ASCII control characters are escaped (Python also escapes what Unicode calls unprintable).
unfoldable pub repr : String → String
unfolding holds escaped
repr s =
    if holds 39 s && not (holds 34 s)
    then "\"" +s escaped 34 s +s "\""
    else "'" +s escaped 39 s +s "'"

samples :
    (fixed 2 (minus_decimal 12345 3) ≡ "-12.34")
    × (percent 1 (decimal 3333 4) ≡ "33.3%")
    × (grouped (decimal 1234567890 2) ≡ "12,345,679")
    × (fixed 2 (minus_decimal 1 3) ≡ "-0.00")
unfolding fixed grouped percent
samples = (refl, refl, refl, refl)

quoted : (repr "a'b" ≡ "\"a'b\"") × (repr "RED" ≡ "'RED'")
unfolding repr
quoted = (refl, refl)
