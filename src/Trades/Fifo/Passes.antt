-- ===== src/Trades/Fifo/Passes.antt =====
-- One pass of the loop over the lots, on quantities that no step rounds.
use fin_skill_os.Prelude.{
  ℕ, zero, suc, ◌+◌, ◌-◌, ◌<◌, ◌≡◌, refl, sym, ap, ◌∙◌, ◌⊎◌, Bool, true, false, differ, ◌||◌,
  Option, some, List, [], ◌∷◌, ◌++◌, All, length, if◌then◌else◌, arith,
}
use fin_skill_os.Decimal.{Decimal, decimal, overflow}
use fin_skill_os.Trades.{sign, same_sign}
use fin_skill_os.Trades.Fifo.{
  Lot, CloseEvent, is_zero, reduce, matched_of, close_event, put_back, match_lots,
}
use fin_skill_os.Trades.Fifo.Matching.{
  sign_of, quantity, sign-quantity, reduce-less, reduce_whole, matched_of-first, matched_of-second,
}

abbrev pub open_quantity : List Lot → ℕ
open_quantity [] = 0
open_quantity (lot ∷ lots) = lot.signed_qty.coefficient + open_quantity lots

abbrev pub closed_quantity : List CloseEvent → ℕ
closed_quantity [] = 0
closed_quantity (e ∷ es) = e.qty.coefficient + closed_quantity es

-- An open lot on a side.
abbrev pub IsLot : Bool → Lot → Type 0
IsLot b lot = (k : ℕ) × (lot.signed_qty ≡ quantity b k) × (0 < k) × (k < overflow)

-- What is left of a trade.
abbrev pub left_of : Bool → ℕ → Decimal
left_of b zero = decimal 0 6
left_of b (suc n) = quantity b (suc n)

abbrev pub need : ℕ → List Lot → ℕ
need zero lots = 1
need (suc n) lots = suc (length lots)

neither {ℓ} :
    {A : Type ℓ} (a b : Bool) (x y : A) → a ≡ false → b ≡ false → (if a || b then x else y) ≡ y
neither a b x y h k = ground arith

pass :
    (fuel date : ℕ) (price delta delta' matched : Decimal) (lot : Lot) (lots lots' : List Lot)
    (events : List CloseEvent)
    → is_zero delta ≡ false
    → same_sign (sign delta) (sign lot.signed_qty) ≡ false
    → matched_of delta lot ≡ matched
    → reduce delta matched ≡ delta'
    → put_back (reduce lot.signed_qty matched) lot lots ≡ lots'
    → match_lots (suc fuel) date price delta (lot ∷ lots) events
      ≡ match_lots fuel date price delta' lots' (events ++ close_event date price matched lot ∷ [])
unfolding match_lots
pass fuel date price delta delta' matched lot lots lots' events z s m d p =
    neither _ _ _ _ z s
    ∙ ap (λ k. go (reduce delta k) (put_back (reduce lot.signed_qty k) lot lots) k) m
    ∙ ap (λ x. go x (put_back (reduce lot.signed_qty matched) lot lots) matched) d
    ∙ ap (λ ls. go delta' ls matched) p
  where
    go : Decimal → List Lot → Decimal → Option (Decimal × List Lot × List CloseEvent)
    go x ls k = match_lots fuel date price x ls (events ++ close_event date price k lot ∷ [])

pub closed-snoc :
    (date : ℕ) (price matched : Decimal) (lot : Lot) (events : List CloseEvent)
    → closed_quantity (events ++ close_event date price matched lot ∷ [])
      ≡ closed_quantity events + matched.coefficient
unfolding close_event
closed-snoc date price matched lot [] = ground arith
closed-snoc date price matched lot (e ∷ es) =
    ap (λ k. e.qty.coefficient + k) (closed-snoc date price matched lot es) ∙ ground arith

-- What a match comes to: the trade and the lots are reduced by what is closed, one of them to nothing.
abbrev pub Matched :
    Bool
    → Bool
    → ℕ
    → List Lot
    → List CloseEvent
    → Option (Decimal × List Lot × List CloseEvent)
    → Type 0
Matched b c n lots events found =
    (n' : ℕ) × (lots' : List Lot) × (events' : List CloseEvent) × (m : ℕ) × (found
      ≡ some (left_of b n', lots', events'))
    × (n ≡ n' + m)
    × (open_quantity lots ≡ open_quantity lots' + m)
    × (closed_quantity events' ≡ closed_quantity events + m)
    × All (IsLot c) lots'
    × ((n' ≡ 0) ⊎ (lots' ≡ []))

other_side :
    (b c : Bool) (x y : Decimal)
    → differ b c ≡ true
    → sign x ≡ sign_of b
    → sign y ≡ sign_of c
    → same_sign (sign x) (sign y) ≡ false
other_side true true x y h p q = absurd (ground arith)
other_side true false x y h p q = ground arith
other_side false true x y h p q = ground arith
other_side false false x y h p q = absurd (ground arith)

pub step-Matched :
    (b c : Bool) (n m : ℕ) (lots lots' : List Lot) (events events' : List CloseEvent) (n' : ℕ)
    (found found' : Option (Decimal × List Lot × List CloseEvent))
    → found ≡ found'
    → n ≡ n' + m
    → open_quantity lots ≡ open_quantity lots' + m
    → closed_quantity events' ≡ closed_quantity events + m
    → Matched b c n' lots' events' found'
    → Matched b c n lots events found
step-Matched b c n m lots lots' events events' n' found found' e h k l
      (n2, ls, es, m2, f, a, o, q, s, z) =
    (n2, ls, es, m + m2, e ∙ f, ground arith, ground arith, ground arith, s, z)

module _ (b c : Bool) (opposed : differ b c ≡ true) (fuel date : ℕ) (price : Decimal) where
  -- One pass, a case for each of the two that the match exhausts.
  pub pass-trade :
      (n k : ℕ) (lot : Lot) (lots : List Lot) (events : List CloseEvent)
      → lot.signed_qty ≡ quantity c k
      → suc n < k
      → k < overflow
      → match_lots (suc fuel) date price (quantity b (suc n)) (lot ∷ lots) events
        ≡ match_lots fuel date price
            (left_of b 0)
            (record lot { signed_qty = quantity c (k - suc n) } ∷ lots)
            (events ++ close_event date price (quantity false (suc n)) lot ∷ [])
  pass-trade n k lot lots events held h small =
      pass fuel date price _ _ _ lot lots _ events (ground arith)
        (other_side b c (quantity b (suc n)) lot.signed_qty opposed
          (sign-quantity b (suc n) (ground arith))
          (ap sign held ∙ sign-quantity c k (ground arith)))
        (matched_of-first b c (suc n) k lot held (ground arith) small (ground arith))
        (reduce_whole b (suc n) (ground arith) (ground arith))
        (ap (λ q. put_back (reduce q (quantity false (suc n))) lot lots) held
          ∙ ap (λ q. put_back q lot lots) (reduce-less c k (suc n) h small)
          ∙ kept (k - suc n) (ground arith))
    where
      kept :
          (r : ℕ)
          → 0 < r
          → put_back (quantity c r) lot lots ≡ record lot { signed_qty = quantity c r } ∷ lots
      kept r p = ground arith

  pub pass-both :
      (n k : ℕ) (lot : Lot) (lots : List Lot) (events : List CloseEvent)
      → lot.signed_qty ≡ quantity c k
      → suc n ≡ k
      → k < overflow
      → match_lots (suc fuel) date price (quantity b (suc n)) (lot ∷ lots) events
        ≡ match_lots fuel date price
            (left_of b 0)
            lots
            (events ++ close_event date price (quantity false (suc n)) lot ∷ [])
  pass-both n k lot lots events held h small =
      pass fuel date price _ _ _ lot lots _ events (ground arith)
        (other_side b c (quantity b (suc n)) lot.signed_qty opposed
          (sign-quantity b (suc n) (ground arith))
          (ap sign held ∙ sign-quantity c k (ground arith)))
        (matched_of-first b c (suc n) k lot held (ground arith) small (ground arith))
        (reduce_whole b (suc n) (ground arith) (ground arith))
        (ap (λ q. put_back (reduce q (quantity false (suc n))) lot lots)
            (held ∙ ap (quantity c) (sym h))
          ∙ ap (λ q. put_back q lot lots) (reduce_whole c (suc n) (ground arith) (ground arith)))

  pub pass-lot :
      (n k : ℕ) (lot : Lot) (lots : List Lot) (events : List CloseEvent)
      → lot.signed_qty ≡ quantity c k
      → 0 < k
      → k < suc n
      → suc n < overflow
      → match_lots (suc fuel) date price (quantity b (suc n)) (lot ∷ lots) events
        ≡ match_lots fuel date price
            (left_of b (suc n - k))
            lots
            (events ++ close_event date price (quantity false k) lot ∷ [])
  pass-lot n k lot lots events held p h small =
      pass fuel date price _ _ _ lot lots _ events (ground arith)
        (other_side b c (quantity b (suc n)) lot.signed_qty opposed
          (sign-quantity b (suc n) (ground arith)) (ap sign held ∙ sign-quantity c k p))
        (matched_of-second b c (suc n) k lot held small (ground arith) h)
        (reduce-less b (suc n) k h small ∙ rest (suc n - k) (ground arith))
        (ap (λ q. put_back (reduce q (quantity false k)) lot lots) held
          ∙ ap (λ q. put_back q lot lots) (reduce_whole c k p (ground arith)))
    where
      rest : (r : ℕ) → 0 < r → quantity b r ≡ left_of b r
      rest zero q = absurd (ground arith)
      rest (suc r) q = refl
