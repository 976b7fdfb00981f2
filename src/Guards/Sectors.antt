-- ===== src/Guards/Sectors.antt =====
-- The sector arithmetic of finskillos/guards/concentration_guard.py, which
-- finskillos/skills/library/concentration_skill.py repeats line by line.
use fin_skill_os.Prelude.{
  List, [], ◌∷◌, String, Option, none, some, Result, ok, ◌>>=◌, if◌then◌else◌, str_eq,
}
use fin_skill_os.Decimal.{Decimal, decimal, less, plus, divide, quantize}
use fin_skill_os.Dict.{Dict, lookup_or, insert}
use fin_skill_os.Guards.Base.{PositionRiskInput}

abbrev pub unclassified : String
unclassified = "UNCLASSIFIED"

-- `p.sector or UNCLASSIFIED`
abbrev pub sector_key : Option String → String
sector_key none = unclassified
sector_key (some s) = if str_eq s "" then unclassified else s

-- `buckets[key] = buckets.get(key, Decimal("0")) + p.market_value`, for each position
unfoldable pub add_positions : Dict Decimal → List PositionRiskInput → Dict Decimal
add_positions buckets [] = buckets
add_positions buckets (p ∷ ps) =
    let key = sector_key p.sector in
    add_positions (insert key (plus (lookup_or (decimal 0 0) key buckets) p.market_value) buckets)
      ps

sum_from : Decimal → Dict Decimal → Decimal
sum_from acc [] = acc
sum_from acc ((k, v) ∷ d) = sum_from (plus acc v) d

-- `sum(buckets.values(), Decimal("0"))`
unfoldable pub sum_values : Dict Decimal → Decimal
unfolding sum_from
sum_values = sum_from (decimal 0 0)

-- The share of each bucket, to four places.
unfoldable pub shares_of : Decimal → Dict Decimal → Result (Dict Decimal)
shares_of total [] = ok []
shares_of total ((k, v) ∷ d) =
    let rest = shares_of total d in
    do ratio ← divide v total; share ← quantize 4 ratio; shares ← rest; ok ((k, share) ∷ shares)

-- `max(classified.items(), key=lambda kv: kv[1])`, from the first item on
unfoldable pub heaviest : String × Decimal → Dict Decimal → String × Decimal
heaviest best [] = best
heaviest best ((k, v) ∷ d) = heaviest (if less best.1 v then (k, v) else best) d
