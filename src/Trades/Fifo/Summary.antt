-- ===== src/Trades/Fifo/Summary.antt =====
-- What `_fifo_realized` returns.
use fin_skill_os.Prelude.{
  ℕ, suc, ◌+◌, Bool, Option, none, some, List, [], ◌∷◌, map, length, is_empty, ◌==◌, if◌then◌else◌,
}
use fin_skill_os.Prelude.Int.{ℤ, pos, ◌+ℤ◌}
use fin_skill_os.Decimal.{Decimal, decimal, less, more, plus}
use fin_skill_os.Simulation.Floats.{Floats}
use fin_skill_os.Trades.{streaks}
use fin_skill_os.Trades.Fifo.{Trade, Lot, CloseEvent, take_trades}

pub record Realized (F : Type 0) : Type 0 where
  pub realized_pnl : Decimal
  pub closed_count : ℕ
  pub wins : ℕ
  pub losses : ℕ
  pub win_rate : Option F
  pub avg_holding_days : Option F
  pub events : List CloseEvent
  pub streaks_of_closes : ℕ × ℕ × ℤ

abbrev realized_of : CloseEvent → Decimal
realized_of e = e.realized

abbrev days_of : CloseEvent → ℤ
days_of e = e.holding_days

abbrev pub count_if : (Decimal → Bool) → List CloseEvent → ℕ
count_if test [] = 0
count_if test (e ∷ es) = if test e.realized then suc (count_if test es) else count_if test es

abbrev pub is_win : Decimal → Bool
is_win x = more x (decimal 0 0)

abbrev pub is_loss : Decimal → Bool
is_loss x = less x (decimal 0 0)

-- `sum(…, Decimal("0"))`, from the left
abbrev sum_from : Decimal → List Decimal → Decimal
sum_from total [] = total
sum_from total (x ∷ xs) = sum_from (plus total x) xs

abbrev sum_days : ℤ → List ℤ → ℤ
sum_days total [] = total
sum_days total (n ∷ ns) = sum_days (total +ℤ n) ns

module _ {F : Type 0} (fl : Floats F) (average : ℤ → ℕ → F) where
  -- `average` is the quotient of the two, rounded to one place.
  unfoldable pub summary : List CloseEvent → Realized F
  summary events =
      let wins = count_if is_win events in
      let losses = count_if is_loss events in
      record {
        realized_pnl = sum_from (decimal 0 0) (map realized_of events);
        closed_count = length events;
        wins = wins;
        losses = losses;
        win_rate =
            if wins + losses == 0
            then none
            else some (fl.over (fl.of_nat wins) (fl.of_nat (wins + losses)));
        avg_holding_days =
            if is_empty events
            then none
            else some (average (sum_days (pos 0) (map days_of events)) (length events));
        events = events;
        streaks_of_closes = streaks (map realized_of events);
      }

  abbrev summary_of : Option (List Lot × List CloseEvent) → Option (Realized F)
  summary_of none = none
  summary_of (some (lots, events)) = some (summary events)

  -- `_fifo_realized`
  unfoldable pub fifo_realized : List Trade → Option (Realized F)
  fifo_realized trades = summary_of (take_trades trades [] [])
