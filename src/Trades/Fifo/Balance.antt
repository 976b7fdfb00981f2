-- ===== src/Trades/Fifo/Balance.antt =====
-- The loop over the lots.
use fin_skill_os.Prelude.{
  ℕ, zero, suc, ◌+◌, ◌-◌, ◌≤◌, ◌<◌, ◌≡◌, refl, ap, ◌∙◌, ◌⊎◌, inl, inr, Bool, true, false, differ,
  List, [], ◌∷◌, ◌++◌, All, length, arith,
}
use fin_skill_os.Decimal.{Decimal, overflow}
use fin_skill_os.Trades.Fifo.{Lot, CloseEvent, close_event, match_lots}
use fin_skill_os.Trades.Fifo.Matching.{quantity}
use fin_skill_os.Trades.Fifo.Passes.{
  open_quantity, IsLot, left_of, need, Matched, closed-snoc, step-Matched, pass-trade, pass-both,
  pass-lot,
}

enough : (n : ℕ) (lots : List Lot) (fuel : ℕ) → suc (length lots) ≤ fuel → need n lots ≤ fuel
enough zero lots fuel h = ground arith
enough (suc n) lots fuel h = h

three_way : (n k : ℕ) → (n < k) ⊎ ((n ≡ k) ⊎ (k < n))
three_way n k = ground arith

module _ (b c : Bool) (opposed : differ b c ≡ true) (date : ℕ) (price : Decimal) where
  pub match_lots-Matched :
      (fuel n : ℕ) (lots : List Lot) (events : List CloseEvent)
      → need n lots ≤ fuel
      → n < overflow
      → All (IsLot c) lots
      → Matched b c n lots events (match_lots fuel date price (left_of b n) lots events)
  unfolding match_lots
  match_lots-Matched zero zero lots events h small fine = absurd (ground arith)
  match_lots-Matched zero (suc n) lots events h small fine = absurd (ground arith)
  match_lots-Matched (suc fuel) n [] events h small fine =
      (n, [], events, 0, refl, ground arith, refl, ground arith, _, inr refl)
  match_lots-Matched (suc fuel) zero (lot ∷ lots) events h small fine =
      (zero, lot ∷ lots, events, 0, refl, refl, ground arith, ground arith, fine, inl refl)
  match_lots-Matched (suc fuel) (suc n) (lot ∷ lots) events h small ((k, held, p, little), others) =
      elim (three_way (suc n) k) [
        | inl before ↦
            step-Matched b c (suc n) (suc n) (lot ∷ lots)
              (record lot { signed_qty = quantity c (k - suc n) } ∷ lots) events
              (events ++ close_event date price (quantity false (suc n)) lot ∷ []) 0 _ _
              (pass-trade b c opposed fuel date price n k lot lots events held before little)
              (ground arith) (ap (λ q. q.coefficient + open_quantity lots) held ∙ ground arith)
              (closed-snoc date price (quantity false (suc n)) lot events)
              (match_lots-Matched fuel 0 _ _ (ground arith) (ground arith)
                ((k - suc n, refl, ground arith, ground arith), others))
        | inr (inl equal) ↦
            step-Matched b c (suc n) (suc n) (lot ∷ lots) lots events
              (events ++ close_event date price (quantity false (suc n)) lot ∷ []) 0 _ _
              (pass-both b c opposed fuel date price n k lot lots events held equal little)
              (ground arith) (ap (λ q. q.coefficient + open_quantity lots) held ∙ ground arith)
              (closed-snoc date price (quantity false (suc n)) lot events)
              (match_lots-Matched fuel 0 lots _ (ground arith) (ground arith) others)
        | inr (inr beyond) ↦
            step-Matched b c (suc n) k (lot ∷ lots) lots events
              (events ++ close_event date price (quantity false k) lot ∷ []) (suc n - k) _ _
              (pass-lot b c opposed fuel date price n k lot lots events held p beyond small)
              (ground arith) (ap (λ q. q.coefficient + open_quantity lots) held ∙ ground arith)
              (closed-snoc date price (quantity false k) lot events)
              (match_lots-Matched fuel (suc n - k) lots _
                (enough (suc n - k) lots fuel (ground arith)) (ground arith) others)
      ]
