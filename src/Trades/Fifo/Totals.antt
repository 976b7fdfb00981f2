-- ===== src/Trades/Fifo/Totals.antt =====
-- The matching of a whole list of trades.
use fin_skill_os.Prelude.{
  ℕ, suc, ◌+◌, ◌<◌, ◌≡◌, refl, sym, ap, ◌∙◌, subst, ◌⊎◌, inl, inr, Bool, true, false, not, Option,
  some, List, [], ◌∷◌, All, length, Bool-cases, if◌then◌else◌, arith,
}
use fin_skill_os.Decimal.{Decimal, decimal, overflow, at_most, negate}
use fin_skill_os.Trades.Fifo.{
  Trade, Lot, CloseEvent, is_buy, or_zero, open_lot, match_lots, take_trade, take_trades, and_then,
}
use fin_skill_os.Trades.Fifo.Matching.{quantity, negate-quantity}
use fin_skill_os.Trades.Fifo.Books.{IsBook, Booked, buys, sells, trade-Booked}

-- A quantity as its column holds it: six decimal places, within the context's precision.
abbrev pub IsTrade : Trade → Type 0
IsTrade t = (b : Bool) × (n : ℕ) × (t.quantity ≡ some (quantity b n)) × (n < overflow)

-- The millionths that a trade buys and sells; a quantity that is not positive is skipped.
abbrev pub amount_of : Decimal → ℕ
amount_of x = if x.negative then 0 else x.coefficient

abbrev pub bought_by : Bool → Decimal → ℕ
bought_by is_buying x = if is_buying then amount_of x else 0

abbrev pub sold_by : Bool → Decimal → ℕ
sold_by is_buying x = if is_buying then 0 else amount_of x

abbrev pub bought : List Trade → ℕ
bought [] = 0
bought (t ∷ ts) = bought_by (is_buy t.side) (or_zero t.quantity) + bought ts

abbrev pub sold : List Trade → ℕ
sold [] = 0
sold (t ∷ ts) = sold_by (is_buy t.side) (or_zero t.quantity) + sold ts

skipped :
    (b : Bool) (n : ℕ)
    → at_most (or_zero (some (quantity b n))) (decimal 0 0) ≡ true
    → amount_of (or_zero (some (quantity b n))) ≡ 0
unfolding at_most
skipped true n h = ground arith
skipped false n h = ground arith

-- A positive quantity.
abbrev IsPositive : Decimal → Type 0
IsPositive x = (n : ℕ) × (x ≡ quantity false n) × (0 < n) × (n < overflow)

taken-IsPositive :
    (b : Bool) (n : ℕ)
    → n < overflow
    → at_most (or_zero (some (quantity b n))) (decimal 0 0) ≡ false
    → IsPositive (or_zero (some (quantity b n)))
unfolding at_most
taken-IsPositive true n l h = absurd (ground arith)
taken-IsPositive false n l h = (n, ground arith, ground arith, l)

delta_by :
    (is_buying : Bool) (n : ℕ)
    → 0 < n
    → n < overflow
    → (if is_buying then quantity false n else negate (quantity false n))
      ≡ quantity (not is_buying) n
delta_by true n h l = refl
delta_by false n h l = negate-quantity n h l

Booked-if :
    {b0 s0 : ℕ} (c : Bool) (p q : Option (List Lot × List CloseEvent))
    → ((c ≡ true) × Booked b0 s0 p) ⊎ ((c ≡ false) × Booked b0 s0 q)
    → Booked b0 s0 (if c then p else q)
Booked-if true p q (inl (h, k)) = k
Booked-if true p q (inr (h, k)) = absurd (ground arith)
Booked-if false p q (inl (h, k)) = absurd (ground arith)
Booked-if false p q (inr (h, k)) = k

recount :
    {b0 s0 b1 s1 : ℕ} {lots : List Lot} {events : List CloseEvent}
    → IsBook b0 s0 lots events
    → b0 ≡ b1
    → s0 ≡ s1
    → IsBook b1 s1 lots events
recount {b0} {s0} {b1} {s1} {lots} {events} book h k =
    subst (λ s. IsBook b1 s lots events) k (subst (λ b. IsBook b s0 lots events) h book)

counts :
    (is_buying : Bool) (n b0 s0 : ℕ) (found : Option (List Lot × List CloseEvent))
    → Booked (b0 + buys (not is_buying) n) (s0 + sells (not is_buying) n) found
    → Booked
        (b0 + bought_by is_buying (quantity false n))
        (s0 + sold_by is_buying (quantity false n))
        found
counts true n b0 s0 found h = h
counts false n b0 s0 found h = h

module _ (date : ℕ) (price : Decimal) (lots : List Lot) (events : List CloseEvent) where
  abbrev matched_with : Bool → Decimal → Option (List Lot × List CloseEvent)
  matched_with is_buying x =
      open_lot date price
        (match_lots (suc (length lots)) date price (if is_buying then x else negate x) lots events)

  positive-Booked :
      (is_buying : Bool) (x : Decimal) (b0 s0 : ℕ)
      → IsPositive x
      → IsBook b0 s0 lots events
      → Booked (b0 + bought_by is_buying x) (s0 + sold_by is_buying x) (matched_with is_buying x)
  positive-Booked is_buying x b0 s0 (n, e, h, l) (c, fine, books) =
      subst
        (λ y.
          Booked (b0 + bought_by is_buying y) (s0 + sold_by is_buying y) (matched_with is_buying y))
        (sym e)
        (counts is_buying n b0 s0 (matched_with is_buying (quantity false n)) (
          subst
            (λ d.
              Booked (b0 + buys (not is_buying) n) (s0 + sells (not is_buying) n)
                (open_lot date price (match_lots (suc (length lots)) date price d lots events)))
            (sym (delta_by is_buying n h l))
            (trade-Booked date price (not is_buying) c b0 s0 n lots events h l fine books)))

  none-Booked :
      (is_buying : Bool) (x : Decimal) (b0 s0 : ℕ)
      → amount_of x ≡ 0
      → IsBook b0 s0 lots events
      → Booked (b0 + bought_by is_buying x) (s0 + sold_by is_buying x) (some (lots, events))
  none-Booked is_buying x b0 s0 h book =
      (lots, events, refl, recount book (ground arith) (ground arith))

take_trade-Booked :
    (t : Trade) (lots : List Lot) (events : List CloseEvent) (b0 s0 : ℕ)
    → IsTrade t
    → IsBook b0 s0 lots events
    → Booked
        (b0 + bought_by (is_buy t.side) (or_zero t.quantity))
        (s0 + sold_by (is_buy t.side) (or_zero t.quantity))
        (take_trade t lots events)
unfolding take_trade
take_trade-Booked t lots events b0 s0 (b, n, e, l) book =
    Booked-if (at_most (or_zero t.quantity) (decimal 0 0)) _ _
      (elim (Bool-cases (at_most (or_zero t.quantity) (decimal 0 0))) [
        | inl skip ↦ inl (
          skip,
          none-Booked t.trade_date (or_zero t.price) lots events (is_buy t.side)
              (or_zero t.quantity) b0 s0
              (subst (λ q. at_most (or_zero q) (decimal 0 0) ≡ true → amount_of (or_zero q) ≡ 0)
                (sym e) (skipped b n) skip)
              book,
        )
        | inr take ↦ inr (
          take,
          positive-Booked t.trade_date (or_zero t.price) lots events (is_buy t.side)
              (or_zero t.quantity) b0 s0
              (subst (λ q. at_most (or_zero q) (decimal 0 0) ≡ false → IsPositive (or_zero q))
                (sym e) (taken-IsPositive b n l) take)
              book,
        )
      ])

take_trades-from :
    (ts : List Trade) (lots : List Lot) (events : List CloseEvent) (b0 s0 : ℕ)
    → All IsTrade ts
    → IsBook b0 s0 lots events
    → Booked (b0 + bought ts) (s0 + sold ts) (take_trades ts lots events)
unfolding take_trades
take_trades-from [] lots events b0 s0 fine book =
    (lots, events, refl, recount book (ground arith) (ground arith))
take_trades-from (t ∷ ts) lots events b0 s0 (first, fine) book =
    let (lots', events', e, book') = take_trade-Booked t lots events b0 s0 first book in
    let (lots2, events2, f, book2) = take_trades-from ts lots' events' _ _ fine book' in
    (
      lots2,
      events2,
      ap (λ found. and_then found (take_trades ts)) e ∙ f,
      recount book2 (ground arith) (ground arith),
    )

-- The matching of trades whose quantities have six decimal places and fit the context's precision
-- always ends, whatever their order, sides and prices: the fuel of one more than the open lots is
-- enough for each trade. All lots that stay open are on one side, long or short, with positive
-- quantities; what the other side traded is exactly what is closed, and what this side traded is
-- closed or open.
pub take_trades-Booked :
    (ts : List Trade) → All IsTrade ts → Booked (bought ts) (sold ts) (take_trades ts [] [])
take_trades-Booked ts fine =
    subst (λ k. Booked k (sold ts) (take_trades ts [] [])) (ground arith)
      (subst (λ k. Booked (0 + bought ts) k (take_trades ts [] [])) (ground arith)
        (take_trades-from ts [] [] 0 0 fine (false, _, (refl, refl))))
