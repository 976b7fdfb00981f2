-- ===== src/Trades/Runs.antt =====
-- The streaks against a description by the runs of a list.
use fin_skill_os.Prelude.{ℕ, ◌+◌, ◌≤◌, ◌≡◌, List, [], ◌∷◌, map, max, ◌∙◌, if◌then◌else◌, arith}
use fin_skill_os.Decimal.{Decimal}
use fin_skill_os.Trades.{Sign, sign, same_sign, Streaks, step, walk, at_rest, streaks}

-- How many of the closes at the front have the sign, up to the first of the opposite sign; closes
-- without profit or loss do not count.
abbrev pub leading : Sign → List Sign → ℕ
leading s [] = 0
leading s (Sign.even ∷ ss) = leading s ss
leading s (x ∷ ss) = if same_sign s x then 1 + leading s ss else 0

-- The longest such run that starts anywhere.
abbrev pub longest : Sign → List Sign → ℕ
longest s [] = 0
longest s (x ∷ ss) = max (leading s (x ∷ ss)) (longest s ss)

leading-longest : (s : Sign) (ss : List Sign) → leading s ss ≤ longest s ss
leading-longest s [] = omega arith
leading-longest s (x ∷ ss) = ground arith

-- What the run so far adds to a run of the sign.
abbrev carry : Sign → Streaks → ℕ
carry s st = if same_sign s st.run_sign then st.run else 0

walk-wins :
    (ss : List Sign) (st : Streaks)
    → carry Sign.win st ≤ st.max_win
    → (walk ss st).max_win
      ≡ max st.max_win (max (carry Sign.win st + leading Sign.win ss) (longest Sign.win ss))
unfolding walk
walk-wins [] st h = ground arith
walk-wins (Sign.even ∷ ss) st h = walk-wins ss st h ∙ ground (arith, leading-longest Sign.win ss)
walk-wins (Sign.win ∷ ss) st h = walk-wins ss (step Sign.win st) (ground arith) ∙ ground arith
walk-wins (Sign.loss ∷ ss) st h =
    walk-wins ss (step Sign.loss st) (ground arith) ∙ ground (arith, leading-longest Sign.win ss)

walk-losses :
    (ss : List Sign) (st : Streaks)
    → carry Sign.loss st ≤ st.max_loss
    → (walk ss st).max_loss
      ≡ max st.max_loss (max (carry Sign.loss st + leading Sign.loss ss) (longest Sign.loss ss))
unfolding walk
walk-losses [] st h = ground arith
walk-losses (Sign.even ∷ ss) st h =
    walk-losses ss st h ∙ ground (arith, leading-longest Sign.loss ss)
walk-losses (Sign.loss ∷ ss) st h = walk-losses ss (step Sign.loss st) (ground arith) ∙ ground arith
walk-losses (Sign.win ∷ ss) st h =
    walk-losses ss (step Sign.win st) (ground arith) ∙ ground (arith, leading-longest Sign.loss ss)

-- The longest winning and the longest losing streak are the longest runs of wins and of losses among
-- the closes, where a close without profit or loss neither counts nor ends a run.
pub streaks-longest :
    (realized : List Decimal)
    → ((streaks realized).0 ≡ longest Sign.win (map sign realized))
      × ((streaks realized).1 ≡ longest Sign.loss (map sign realized))
unfolding streaks
streaks-longest realized = (
  walk-wins (map sign realized) at_rest (omega arith)
      ∙ ground (arith, leading-longest Sign.win (map sign realized)),
  walk-losses (map sign realized) at_rest (omega arith)
      ∙ ground (arith, leading-longest Sign.loss (map sign realized)),
)
