-- ===== src/Trades.antt =====
-- finskillos/services/trade_analytics_service.py: the streaks over the closed trades, and the matching
-- of trades first in, first out.
pub mod Runs
pub mod Fifo
use fin_skill_os.Prelude.{ℕ, zero, suc, Bool, true, false, List, [], ◌∷◌, map, max, if◌then◌else◌}
use fin_skill_os.Prelude.Int.{ℤ, pos, negsuc}
use fin_skill_os.Decimal.{Decimal, decimal, less, more}

-- The values -1, 0 and 1 of `_sign`.
pub data Sign : Type 0 where
  loss even win : Sign

-- `_sign`
unfoldable pub sign : Decimal → Sign
sign x =
    if more x (decimal 0 0) then Sign.win else if less x (decimal 0 0) then Sign.loss else Sign.even

abbrev pub same_sign : Sign → Sign → Bool
same_sign Sign.loss Sign.loss = true
same_sign Sign.even Sign.even = true
same_sign Sign.win Sign.win = true
same_sign _ _ = false

-- The variables of the loop.
pub record Streaks : Type 0 where
  pub max_win : ℕ
  pub max_loss : ℕ
  pub run : ℕ
  pub run_sign : Sign

abbrev pub next_run : Sign → Streaks → ℕ
next_run s st = if same_sign s st.run_sign then suc st.run else 1

-- One turn of the loop.
abbrev pub step : Sign → Streaks → Streaks
step Sign.even st = st
step Sign.win st = record st {
  max_win = max st.max_win (next_run Sign.win st);
  run = next_run Sign.win st;
  run_sign = Sign.win;
}
step Sign.loss st = record st {
  max_loss = max st.max_loss (next_run Sign.loss st);
  run = next_run Sign.loss st;
  run_sign = Sign.loss;
}

unfoldable pub walk : List Sign → Streaks → Streaks
walk [] st = st
walk (s ∷ ss) st = walk ss (step s st)

-- `run_sign * run`
abbrev pub signed_run : Sign → ℕ → ℤ
signed_run Sign.win n = pos n
signed_run Sign.even n = pos 0
signed_run Sign.loss zero = pos 0
signed_run Sign.loss (suc n) = negsuc n

abbrev pub at_rest : Streaks
at_rest = record { max_win = 0; max_loss = 0; run = 0; run_sign = Sign.even }

-- `_streaks`: the longest winning and losing streak, and the current one.
unfoldable pub streaks : List Decimal → ℕ × ℕ × ℤ
streaks realized =
    let st = walk (map sign realized) at_rest in
    (st.max_win, st.max_loss, signed_run st.run_sign st.run)
