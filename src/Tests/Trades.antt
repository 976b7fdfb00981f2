-- ===== src/Tests/Trades.antt =====
-- Runs of the matching of trades.
use fin_skill_os.Prelude.{
  ℕ, ◌*◌, ◌≡◌, refl, false, Option, none, some, List, [], ◌∷◌, All, String, arith,
}
use fin_skill_os.Decimal.{
  decimal, minus, plus, times, less, at_most, negate, magnitude, fix, minus_decimal,
}
use fin_skill_os.Trades.{sign}
use fin_skill_os.Trades.Fifo.{
  Trade, Lot, CloseEvent, reduce, matched_of, close_event, match_lots, take_trade, take_trades,
}
use fin_skill_os.Trades.Fifo.Books.{Booked}
use fin_skill_os.Trades.Fifo.Totals.{IsTrade, bought, sold, take_trades-Booked}

abbrev trade : String → ℕ → ℕ → ℕ → Trade
trade side amount price day = record {
  quantity = some (decimal (amount * 1_000_000) 6);
  price = some (decimal price 0);
  side = side;
  trade_date = day;
}

-- Ten bought, four sold, eight sold: two are short. An entry that only watches is taken as sold.
abbrev journal : List Trade
journal = trade "BUY" 10 5 1 ∷ trade "SELL" 4 7 3 ∷ trade "SHORT" 7 4 4 ∷ trade "WATCH" 1 4 9 ∷ []

journal_fine : All IsTrade journal
journal_fine = (
  (false, 10_000_000, refl, omega arith),
  (
    (false, 4_000_000, refl, omega arith),
    ((false, 7_000_000, refl, omega arith), ((false, 1_000_000, refl, omega arith), _)),
  ),
)

take_trades-Booked_example : Booked (bought journal) (sold journal) (take_trades journal [] [])
take_trades-Booked_example = take_trades-Booked journal journal_fine

watched_lots : List Lot
watched_lots =
    record { signed_qty = minus_decimal 1_000_000 6; price = decimal 4 0; entry_date = 4 }
    ∷ record { signed_qty = minus_decimal 1_000_000 6; price = decimal 4 0; entry_date = 9 }
    ∷ []

lots_of : Option (List Lot × List CloseEvent) → List Lot
lots_of none = []
lots_of (some (lots, events)) = lots

watching_sells : lots_of (take_trades journal [] []) ≡ watched_lots
unfolding take_trades take_trade match_lots reduce matched_of close_event sign less at_most negate
    magnitude minus plus times fix watched_lots lots_of
watching_sells = refl
