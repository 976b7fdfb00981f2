-- ===== src/Trades/Fifo/Books.antt =====
-- The books after each trade.
use fin_skill_os.Prelude.{
  ℕ, zero, suc, ◌+◌, ◌≤◌, ◌<◌, ◌≡◌, refl, sym, ap, ◌∙◌, subst, inl, inr, Bool, true, false, differ,
  ◌||◌, Option, some, List, [], ◌∷◌, ◌++◌, All, length, Bool-cases, if◌then◌else◌, arith,
}
use fin_skill_os.Decimal.{Decimal, overflow}
use fin_skill_os.Trades.{sign, same_sign}
use fin_skill_os.Trades.Fifo.{Lot, CloseEvent, match_lots, open_lot}
use fin_skill_os.Trades.Fifo.Matching.{sign_of, quantity, sign-quantity}
use fin_skill_os.Trades.Fifo.Passes.{open_quantity, closed_quantity, IsLot, left_of, need, Matched}
use fin_skill_os.Trades.Fifo.Balance.{match_lots-Matched}

-- With open lots on a side, the other side's quantity is closed, and the rest of this side's is open.
abbrev pub Balanced : Bool → ℕ → ℕ → List Lot → List CloseEvent → Type 0
Balanced false bought sold lots events =
    (bought ≡ closed_quantity events + open_quantity lots) × (sold ≡ closed_quantity events)
Balanced true bought sold lots events =
    (bought ≡ closed_quantity events) × (sold ≡ closed_quantity events + open_quantity lots)

abbrev pub IsBook : ℕ → ℕ → List Lot → List CloseEvent → Type 0
IsBook bought sold lots events =
    (b : Bool) × All (IsLot b) lots × Balanced b bought sold lots events

abbrev pub Booked : ℕ → ℕ → Option (List Lot × List CloseEvent) → Type 0
Booked bought sold found =
    (lots : List Lot) × (events : List CloseEvent) × (found ≡ some (lots, events))
    × IsBook bought sold lots events

abbrev pub buys : Bool → ℕ → ℕ
buys true n = 0
buys false n = n

abbrev pub sells : Bool → ℕ → ℕ
sells true n = n
sells false n = 0

All-snoc :
    (b : Bool) (lots : List Lot) (lot : Lot)
    → All (IsLot b) lots
    → IsLot b lot
    → All (IsLot b) (lots ++ lot ∷ [])
All-snoc b [] lot h k = (k, _)
All-snoc b (l ∷ lots) lot (p, h) k = (p, All-snoc b lots lot h k)

open-snoc :
    (lots : List Lot) (lot : Lot)
    → open_quantity (lots ++ lot ∷ []) ≡ open_quantity lots + lot.signed_qty.coefficient
open-snoc [] lot = ground arith
open-snoc (l ∷ lots) lot =
    ap (λ k. l.signed_qty.coefficient + k) (open-snoc lots lot) ∙ ground arith

same_side :
    (b : Bool) (x y : Decimal)
    → sign x ≡ sign_of b
    → sign y ≡ sign_of b
    → same_sign (sign x) (sign y) ≡ true
same_side true x y p q = ground arith
same_side false x y p q = ground arith

either {ℓ} : {A : Type ℓ} (a b : Bool) (x y : A) → b ≡ true → (if a || b then x else y) ≡ x
either a b x y h = ground arith

module _ (date : ℕ) (price : Decimal) where
  -- A trade on the side of the lots closes none.
  match_lots-same :
      (b : Bool) (fuel n : ℕ) (lots : List Lot) (events : List CloseEvent)
      → 0 < n
      → All (IsLot b) lots
      → match_lots (suc fuel) date price (quantity b n) lots events
        ≡ some (quantity b n, lots, events)
  unfolding match_lots
  match_lots-same b fuel n [] events h fine = refl
  match_lots-same b fuel n (lot ∷ lots) events h ((k, held, p, little), others) = either _ _ _ _ (
      same_side b (quantity b n) lot.signed_qty (sign-quantity b n h)
        (ap sign held ∙ sign-quantity b k p))

  extend :
      (b : Bool) (bought sold n : ℕ) (lots : List Lot) (events : List CloseEvent)
      → 0 < n
      → n < overflow
      → All (IsLot b) lots
      → Balanced b bought sold lots events
      → Booked
          (bought + buys b n)
          (sold + sells b n)
          (open_lot date price (some (quantity b n, lots, events)))
  extend b bought sold n lots events h small fine books = (
    lots ++ record { signed_qty = quantity b n; price = price; entry_date = date } ∷ [],
    events,
    ground arith,
    (b, All-snoc b lots _ fine (n, refl, h, small), added b books),
  )
    where
      added :
          (b : Bool)
          → Balanced b bought sold lots events
          → Balanced b
              (bought + buys b n)
              (sold + sells b n)
              (lots ++ record { signed_qty = quantity b n; price = price; entry_date = date } ∷ [])
              events
      added true (h, k) = (
        ground arith,
        ground (
          arith,
          open-snoc lots
              (record { signed_qty = quantity true n; price = price; entry_date = date }),
        ),
      )
      added false (h, k) = (
        ground (
          arith,
          open-snoc lots
              (record { signed_qty = quantity false n; price = price; entry_date = date }),
        ),
        ground arith,
      )

  -- A trade against the lots.
  against :
      (b c : Bool) (bought sold n : ℕ) (lots : List Lot) (events : List CloseEvent)
      (found : Option (Decimal × List Lot × List CloseEvent))
      → differ b c ≡ true
      → n < overflow
      → Balanced c bought sold lots events
      → Matched b c n lots events found
      → Booked (bought + buys b n) (sold + sells b n) (open_lot date price found)
  against b c bought sold n lots events found opposed small books
        (zero, lots', events', m, e, a, o, q, fine, _) =
      (lots', events', ap (open_lot date price) e, (c, fine, closed b c opposed books))
    where
      closed :
          (b c : Bool)
          → differ b c ≡ true
          → Balanced c bought sold lots events
          → Balanced c (bought + buys b n) (sold + sells b n) lots' events'
      closed true true d books = absurd (ground arith)
      closed false false d books = absurd (ground arith)
      closed true false d (h, k) = (ground arith, ground arith)
      closed false true d (h, k) = (ground arith, ground arith)
  against b c bought sold n lots events found opposed small books
        (suc n', lots', events', m, e, a, o, q, fine, inl z) =
      absurd (ground arith)
  against b c bought sold n lots events found opposed small books
        (suc n', lots', events', m, e, a, o, q, fine, inr none_left) =
      (
        record { signed_qty = quantity b (suc n'); price = price; entry_date = date } ∷ [],
        events',
        ap (open_lot date price) e
            ∙ ap (λ ls. open_lot date price (some (quantity b (suc n'), ls, events'))) none_left
            ∙ ground arith,
        (b, ((suc n', refl, ground arith, ground arith), _), turned b c opposed books),
      )
    where
      turned :
          (b c : Bool)
          → differ b c ≡ true
          → Balanced c bought sold lots events
          → Balanced b
              (bought + buys b n)
              (sold + sells b n)
              (record { signed_qty = quantity b (suc n'); price = price; entry_date = date } ∷ [])
              events'
      turned true true d books = absurd (ground arith)
      turned false false d books = absurd (ground arith)
      turned true false d (h, k) =
          (ground (arith, ap open_quantity none_left), ground (arith, ap open_quantity none_left))
      turned false true d (h, k) =
          (ground (arith, ap open_quantity none_left), ground (arith, ap open_quantity none_left))

  pub trade-Booked :
      (b c : Bool) (bought sold n : ℕ) (lots : List Lot) (events : List CloseEvent)
      → 0 < n
      → n < overflow
      → All (IsLot c) lots
      → Balanced c bought sold lots events
      → Booked (bought + buys b n) (sold + sells b n) (
          open_lot date price
            (match_lots (suc (length lots)) date price (quantity b n) lots events))
  trade-Booked b c bought sold n lots events h small fine books = elim (Bool-cases (differ b c)) [
    | inl d ↦ against b c bought sold n lots events _ d small books (
        subst
          (λ x. Matched b c n lots events (match_lots (suc (length lots)) date price x lots events))
          (whole b n h)
          (match_lots-Matched b c d date price (suc (length lots)) n lots events (enough n lots)
            small fine))
    | inr d ↦
        let fine' = subst (λ x. All (IsLot x) lots) (one_side b c d) fine in
        subst (λ found. Booked (bought + buys b n) (sold + sells b n) (open_lot date price found))
          (sym (match_lots-same b (length lots) n lots events h fine'))
          (extend b bought sold n lots events h small fine'
            (subst (λ x. Balanced x bought sold lots events) (one_side b c d) books))
  ]
    where
      whole : (b : Bool) (n : ℕ) → 0 < n → left_of b n ≡ quantity b n
      whole b zero p = absurd (ground arith)
      whole b (suc n) p = refl

      one_side : (b c : Bool) → differ b c ≡ false → c ≡ b
      one_side true true p = refl
      one_side true false p = absurd (ground arith)
      one_side false true p = absurd (ground arith)
      one_side false false p = refl

      enough : (n : ℕ) (lots : List Lot) → need n lots ≤ suc (length lots)
      enough zero lots = ground arith
      enough (suc n) lots = ground arith
