-- ===== src/Trades/Fifo.antt =====
-- `_fifo_realized` of finskillos/services/trade_analytics_service.py
pub mod Matching
pub mod Passes
pub mod Balance
pub mod Books
pub mod Totals
pub mod Summary
use fin_skill_os.Prelude.{
  ℕ, zero, suc, ◌+◌, Bool, true, false, not, ◌||◌, Option, none, some, List, [], ◌∷◌, ◌++◌, map,
  String, str_eq, length, is_empty, ◌==◌, if◌then◌else◌,
}
use fin_skill_os.Prelude.Int.{ℤ, pos, ◌+ℤ◌, sub_ℕ}
use fin_skill_os.Decimal.{
  Decimal, decimal, minus_decimal, less, more, at_most, plus, minus, times, negate, magnitude,
}
use fin_skill_os.Trades.{Sign, sign, same_sign, streaks}

-- The columns of a trade that the matching reads. A date is its ordinal.
pub record Trade : Type 0 where
  pub quantity : Option Decimal
  pub price : Option Decimal
  pub side : String
  pub trade_date : ℕ

pub record Lot : Type 0 where
  pub signed_qty : Decimal
  pub price : Decimal
  pub entry_date : ℕ

pub data Direction : Type 0 where
  long short : Direction

pub record CloseEvent : Type 0 where
  pub close_date : ℕ
  pub realized : Decimal
  pub holding_days : ℤ
  pub entry_date : ℕ
  pub entry_price : Decimal
  pub direction : Direction
  pub qty : Decimal

-- `x or Decimal("0")`
abbrev pub or_zero : Option Decimal → Decimal
or_zero none = decimal 0 0
or_zero (some x) = if x.coefficient == 0 then decimal 0 0 else x

-- `side in _BUY`
abbrev pub is_buy : String → Bool
is_buy side = str_eq side "BUY" || str_eq side "LONG"

abbrev pub is_zero : Decimal → Bool
is_zero x = x.coefficient == 0

-- `_sign(x)` as a factor.
abbrev pub factor : Sign → Decimal
factor Sign.loss = minus_decimal 1 0
factor Sign.even = decimal 0 0
factor Sign.win = decimal 1 0

-- `x - _sign(x) * matched`
unfoldable pub reduce : Decimal → Decimal → Decimal
reduce x matched = minus x (times (factor (sign x)) matched)

-- `min(x, y)`
abbrev pub lesser : Decimal → Decimal → Decimal
lesser x y = if less y x then y else x

unfoldable pub matched_of : Decimal → Lot → Decimal
matched_of delta lot = lesser (magnitude delta) (magnitude lot.signed_qty)

abbrev pub is_long : Lot → Bool
is_long lot = more lot.signed_qty (decimal 0 0)

unfoldable pub close_event : ℕ → Decimal → Decimal → Lot → CloseEvent
close_event date price matched lot = record {
  close_date = date;
  realized =
      if is_long lot
      then times (minus price lot.price) matched
      else times (minus lot.price price) matched;
  holding_days = sub_ℕ date lot.entry_date;
  entry_date = lot.entry_date;
  entry_price = lot.price;
  direction = if is_long lot then Direction.long else Direction.short;
  qty = matched;
}

-- The front lot after a match leaves the queue at 0.
abbrev pub put_back : Decimal → Lot → List Lot → List Lot
put_back left lot lots = if is_zero left then lots else record lot { signed_qty = left } ∷ lots

-- The loop over the lots, on fuel: what is left of the trade, the lots and the closes.
unfoldable pub match_lots :
    ℕ
    → ℕ
    → Decimal
    → Decimal
    → List Lot
    → List CloseEvent
    → Option (Decimal × List Lot × List CloseEvent)
match_lots zero date price delta lots events = none
match_lots (suc fuel) date price delta [] events = some (delta, [], events)
match_lots (suc fuel) date price delta (lot ∷ lots) events =
    let matched = matched_of delta lot in
    let rest =
      match_lots fuel date price (reduce delta matched)
        (put_back (reduce lot.signed_qty matched) lot lots)
        (events ++ close_event date price matched lot ∷ []) in
    if is_zero delta || same_sign (sign delta) (sign lot.signed_qty)
    then some (delta, lot ∷ lots, events)
    else rest

abbrev pub delta_of : Trade → Decimal
delta_of t = if is_buy t.side then or_zero t.quantity else negate (or_zero t.quantity)

-- What is left of a trade becomes a lot.
abbrev pub open_lot :
    ℕ
    → Decimal
    → Option (Decimal × List Lot × List CloseEvent)
    → Option (List Lot × List CloseEvent)
open_lot date price none = none
open_lot date price (some (delta, lots, events)) =
    if is_zero delta
    then some (lots, events)
    else some (lots ++ record { signed_qty = delta; price = price; entry_date = date } ∷ [], events)

-- A trade; the fuel is one more than the lots.
unfoldable pub take_trade : Trade → List Lot → List CloseEvent → Option (List Lot × List CloseEvent)
take_trade t lots events =
    if at_most (or_zero t.quantity) (decimal 0 0)
    then some (lots, events)
    else open_lot t.trade_date (or_zero t.price)
        (match_lots (suc (length lots)) t.trade_date (or_zero t.price) (delta_of t) lots events)

abbrev pub and_then :
    Option (List Lot × List CloseEvent)
    → (List Lot → List CloseEvent → Option (List Lot × List CloseEvent))
    → Option (List Lot × List CloseEvent)
and_then none rest = none
and_then (some (lots, events)) rest = rest lots events

unfoldable pub take_trades :
    List Trade → List Lot → List CloseEvent → Option (List Lot × List CloseEvent)
take_trades [] lots events = some (lots, events)
take_trades (t ∷ ts) lots events = and_then (take_trade t lots events) (take_trades ts)
