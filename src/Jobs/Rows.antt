-- ===== src/Jobs/Rows.antt =====
-- The keys of the table.
use fin_skill_os.Prelude.{
  ℕ, suc, ◌<◌, ◌≡◌, refl, sym, ap, ◌∙◌, subst, Bool, true, false, Option, none, some, List, [], ◌∷◌,
  ◌++◌, All, All-snoc, All-of, All-map, map, ltb, ◌==◌, ◌⊎◌, inl, inr, Bool-cases, if◌then◌else◌,
  arith,
}
use fin_skill_os.Jobs.{WorkerJob, Queue, is_queued, earlier, oldest, at_id, reaped}

apart : (m n : ℕ) → (m == n) ≡ false → (n == m) ≡ true → ⊥
apart m n h k = ground arith

apart_same : (m n : ℕ) → (m == n) ≡ false → (m == n) ≡ true → ⊥
apart_same m n h k = ground arith

module _ {J : Type 0} where
  abbrev pub IsKeyed : List (WorkerJob J) → Type 0
  IsKeyed [] = Unit
  IsKeyed (r ∷ rs) = All (λ s. (s.id == r.id) ≡ false) rs × IsKeyed rs

  abbrev pub IsTable : Queue J → Type 0
  IsTable q = All (λ r. r.id < q.next_id) q.rows × IsKeyed q.rows

  some-one : (r s : WorkerJob J) → ◌≡◌ {A = Option (WorkerJob J)} (some r) (some s) → s ≡ r
  some-one r s e = ground arith

  pub picked :
      (b : Bool) (r : WorkerJob J) (o : Option (WorkerJob J)) (j : WorkerJob J)
      → (if b then earlier r o else o) ≡ some j
      → ((b ≡ true) × (j ≡ r)) ⊎ (o ≡ some j)
  picked true r none j e = inl (refl, some-one r j e)
  picked true r (some s) j e = elim (Bool-cases (ltb s.created_at r.created_at)) [
    | inl before ↦ inr (when_true before ∙ e)
    | inr after ↦ inl (refl, some-one r j (when_false after ∙ e))
  ]
    where
      when_true :
          ltb s.created_at r.created_at ≡ true
          → some s ≡ (if ltb s.created_at r.created_at then some s else some r)
      when_true h = ground arith

      when_false :
          ltb s.created_at r.created_at ≡ false
          → some r ≡ (if ltb s.created_at r.created_at then some s else some r)
      when_false h = ground arith
  picked false r o j e = inr e

  -- The oldest queued job is in the table, queued.
  pub oldest-found :
      (P : WorkerJob J → Type 0) (rs : List (WorkerJob J)) (j : WorkerJob J)
      → oldest rs ≡ some j
      → All P rs
      → P j × (is_queued j.status ≡ true)
  oldest-found P [] j e h = absurd (ground arith)
  oldest-found P (r ∷ rs) j e (p, h) = elim (picked (is_queued r.status) r (oldest rs) j e) [
    | inl (queued, same) ↦ (subst P (sym same) p, ap (λ s. is_queued s.status) same ∙ queued)
    | inr later ↦ oldest-found P rs j later h
  ]

  -- Every row of its id is that row.
  pub oldest-same :
      (rs : List (WorkerJob J)) (j : WorkerJob J)
      → IsKeyed rs
      → oldest rs ≡ some j
      → All (λ r. (r.id == j.id) ≡ true → r ≡ j) rs
  oldest-same [] j k e = _
  oldest-same (r ∷ rs) j (d, k) e = elim (picked (is_queued r.status) r (oldest rs) j e) [
    | inl (queued, same) ↦ (
      λ _. sym same,
      All-map (λ s. (s.id == r.id) ≡ false) (λ s. (s.id == j.id) ≡ true → s ≡ j) rs
          (λ s f t. absurd (apart_same s.id r.id f (ap (λ x. s.id == x.id) (sym same) ∙ t))) d,
    )
    | inr later ↦ (
      λ t. absurd (apart j.id r.id ((oldest-found (λ s. (s.id == r.id) ≡ false) rs j later d).0) t),
      oldest-same rs j k later,
    )
  ]

  pub oldest-queued :
      (rs : List (WorkerJob J)) (j : WorkerJob J)
      → IsKeyed rs
      → oldest rs ≡ some j
      → All (λ r. (r.id == j.id) ≡ true → is_queued r.status ≡ true) rs
  oldest-queued rs j k e =
      All-map (λ r. (r.id == j.id) ≡ true → r ≡ j)
        (λ r. (r.id == j.id) ≡ true → is_queued r.status ≡ true) rs
        (λ r f t. ap (λ s. is_queued s.status) (f t) ∙ queued) (oldest-same rs j k e)
    where
      queued : is_queued j.status ≡ true
      queued = (oldest-found (λ _. Unit {0}) rs j e (All-of (λ _. Unit {0}) rs (λ _. _))).1

  -- A change that keeps the ids.
  pub map-IsKeyed :
      (f : WorkerJob J → WorkerJob J) (rs : List (WorkerJob J))
      → ((r : WorkerJob J) → (f r).id ≡ r.id)
      → IsKeyed rs
      → IsKeyed (map f rs)
  map-IsKeyed f [] h k = _
  map-IsKeyed f (r ∷ rs) h (d, k) = (others rs d, map-IsKeyed f rs h k)
    where
      others :
          (ss : List (WorkerJob J))
          → All (λ s. (s.id == r.id) ≡ false) ss
          → All (λ s. (s.id == (f r).id) ≡ false) (map f ss)
      others [] d = _
      others (s ∷ ss) (e, d) =
          (ap (λ x. x == (f r).id) (h s) ∙ ap (λ x. s.id == x) (h r) ∙ e, others ss d)

  pub map-below :
      (f : WorkerJob J → WorkerJob J) (n : ℕ) (rs : List (WorkerJob J))
      → ((r : WorkerJob J) → (f r).id ≡ r.id)
      → All (λ r. r.id < n) rs
      → All (λ r. r.id < n) (map f rs)
  map-below f n [] h k = _
  map-below f n (r ∷ rs) h (d, k) = (subst (λ i. i < n) (sym (h r)) d, map-below f n rs h k)

  pub at_id-id :
      (id : ℕ) (f : WorkerJob J → WorkerJob J)
      → ((r : WorkerJob J) → (f r).id ≡ r.id)
      → (r : WorkerJob J) → (at_id id f r).id ≡ r.id
  at_id-id id f h r = kept (r.id == id)
    where
      kept : (b : Bool) → (if b then f r else r).id ≡ r.id
      kept true = h r
      kept false = refl

  pub reaped-id : (older_than now : ℕ) (r : WorkerJob J) → (reaped older_than now r).id ≡ r.id
  reaped-id older_than now r = ground arith

  fresh-IsKeyed :
      (n : ℕ) (rs : List (WorkerJob J)) (r : WorkerJob J)
      → r.id ≡ n
      → All (λ s. s.id < n) rs
      → IsKeyed rs
      → IsKeyed (rs ++ r ∷ [])
  fresh-IsKeyed n [] r e h k = (_, _)
  fresh-IsKeyed n (s ∷ rs) r e (b, h) (d, k) =
      (All-snoc (λ t. (t.id == s.id) ≡ false) rs r d (ground arith), fresh-IsKeyed n rs r e h k)

  pub snoc-IsTable :
      (q : Queue J) (r : WorkerJob J)
      → r.id ≡ q.next_id
      → IsTable q
      → IsTable (record { rows = q.rows ++ r ∷ []; next_id = suc q.next_id })
  snoc-IsTable q r e (below, keyed) = (
    All-snoc (λ s. s.id < suc q.next_id) q.rows r
        (All-map (λ s. s.id < q.next_id) (λ s. s.id < suc q.next_id) q.rows (λ s l. ground arith)
          below)
        (ground arith),
    fresh-IsKeyed q.next_id q.rows r e below keyed,
  )
