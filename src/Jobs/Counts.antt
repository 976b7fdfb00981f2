-- ===== src/Jobs/Counts.antt =====
-- Counting the queued jobs.
use fin_skill_os.Prelude.{
  ℕ, suc, ◌≡◌, refl, sym, ap, ◌∙◌, Bool, true, false, Option, none, some, List, [], ◌∷◌, All,
  All-map, map, ltb, ◌==◌, inl, inr, Bool-cases, if_true, if_false, if◌then◌else◌, arith,
}
use fin_skill_os.Jobs.{
  WorkerJob, Outcome, finished, cycle_failed, crashed, is_queued, earlier, oldest, at_id, claimed,
  settle,
}
use fin_skill_os.Jobs.Rows.{IsKeyed, picked, oldest-found}

abbrev pub count_queued : {J : Type 0} → List (WorkerJob J) → ℕ
count_queued [] = 0
count_queued (r ∷ rs) = if is_queued r.status then suc (count_queued rs) else count_queued rs

same_id : (m n : ℕ) → m ≡ n → (m == n) ≡ true
same_id m n h = ground arith

module _ {J : Type 0} where
  never_none : (r : WorkerJob J) (o : Option (WorkerJob J)) → earlier r o ≡ none → ⊥
  never_none r none e = ground arith
  never_none r (some s) e = elim (Bool-cases (ltb s.created_at r.created_at)) [
    | inl h ↦ some_none s (sym (if_true _ _ _ h) ∙ e)
    | inr h ↦ some_none r (sym (if_false _ _ _ h) ∙ e)
  ]
    where
      some_none : (t : WorkerJob J) → some t ≡ none → ⊥
      some_none t e = ground arith

  unpicked :
      (b : Bool) (r : WorkerJob J) (o : Option (WorkerJob J))
      → (if b then earlier r o else o) ≡ none
      → (b ≡ false) × (o ≡ none)
  unpicked true r o e = absurd (never_none r o e)
  unpicked false r o e = (refl, e)

  pub none_queued : (rs : List (WorkerJob J)) → oldest rs ≡ none → count_queued rs ≡ 0
  none_queued [] e = refl
  none_queued (r ∷ rs) e =
      let (off, none_left) = unpicked (is_queued r.status) r (oldest rs) e in
      if_false _ _ _ off ∙ none_queued rs none_left

  settle-status :
      (now : ℕ) (o : Outcome J) (r : WorkerJob J) → is_queued (settle now o r).status ≡ false
  settle-status now (finished summary) r = refl
  settle-status now (cycle_failed summary message) r = refl
  settle-status now (crashed message) r = refl

  module _ (j : WorkerJob J) (now later : ℕ) (o : Outcome J) where
    -- A claim and the outcome of the job, on a row.
    abbrev pub passed : WorkerJob J → WorkerJob J
    passed r = at_id j.id (settle later o) (at_id j.id (claimed now) r)

    abbrev pub pass_rows : List (WorkerJob J) → List (WorkerJob J)
    pass_rows rs = map (at_id j.id (settle later o)) (map (at_id j.id (claimed now)) rs)

    pub passed-other : (r : WorkerJob J) → (r.id == j.id) ≡ false → passed r ≡ r
    passed-other r e = ap (at_id j.id (settle later o)) (if_false _ _ _ e) ∙ if_false _ _ _ e

    pub passed-same :
        (r : WorkerJob J) → (r.id == j.id) ≡ true → passed r ≡ settle later o (claimed now r)
    passed-same r e = ap (at_id j.id (settle later o)) (if_true _ _ _ e) ∙ if_true _ _ _ e

    count-others :
        (rs : List (WorkerJob J))
        → All (λ s. (s.id == j.id) ≡ false) rs
        → count_queued (pass_rows rs) ≡ count_queued rs
    count-others [] h = refl
    count-others (r ∷ rs) (e, h) =
        ap
          (λ s.
            if is_queued s.status
            then suc (count_queued (pass_rows rs))
            else count_queued (pass_rows rs))
          (passed-other r e)
        ∙ ap (λ n. if is_queued r.status then suc n else n) (count-others rs h)

    pub count-pass :
        (rs : List (WorkerJob J))
        → IsKeyed rs
        → oldest rs ≡ some j
        → suc (count_queued (pass_rows rs)) ≡ count_queued rs
    count-pass [] k e = absurd (ground arith)
    count-pass (r ∷ rs) (d, k) e = elim (picked (is_queued r.status) r (oldest rs) j e) [
      | inl (queued, same) ↦
          ap suc (
            ap
              (λ s.
                if is_queued s.status
                then suc (count_queued (pass_rows rs))
                else count_queued (pass_rows rs))
              (passed-same r (same_id r.id j.id (ap (λ s. s.id) (sym same))))
            ∙ if_false _ _ _ (settle-status later o (claimed now r))
            ∙ count-others rs (
                All-map (λ s. (s.id == r.id) ≡ false) (λ s. (s.id == j.id) ≡ false) rs
                  (λ s f. ap (λ x. s.id == x.id) same ∙ f) d))
          ∙ sym (if_true _ _ _ queued)
      | inr later_one ↦
          ap suc (
            ap
              (λ s.
                if is_queued s.status
                then suc (count_queued (pass_rows rs))
                else count_queued (pass_rows rs))
              (passed-other r
                (away (oldest-found (λ s. (s.id == r.id) ≡ false) rs j later_one d).0)))
          ∙ more (is_queued r.status) (count_queued (pass_rows rs)) (count_queued rs)
              (count-pass rs k later_one)
    ]
      where
        away : (j.id == r.id) ≡ false → (r.id == j.id) ≡ false
        away h = ground arith

        more :
            (b : Bool) (m n : ℕ)
            → suc m ≡ n
            → suc (if b then suc m else m) ≡ (if b then suc n else n)
        more true m n h = ap suc h
        more false m n h = h
