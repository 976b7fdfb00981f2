-- ===== src/Jobs/Steps.antt =====
-- What a step of a session leaves as it is.
use fin_skill_os.Prelude.{
  ℕ, ◌≡◌, refl, sym, ap, ◌∙◌, subst, Bool, true, false, some, List, [], ◌∷◌, All, All-map, map,
  keep, ◌==◌, inl, inr, Option-cases, if◌then◌else◌, arith,
}
use fin_skill_os.Jobs.{
  WorkerJob, Queue, JobStatus, Outcome, finished, cycle_failed, crashed, is_queued, is_active,
  find_active, insert_row, oldest, at_id, change_row, claimed, claim_row, settle, reaped,
  reap_stale_running,
}
use fin_skill_os.Jobs.Rows.{
  IsTable, IsKeyed, picked, oldest-found, map-IsKeyed, map-below, at_id-id, reaped-id, snoc-IsTable,
}
use fin_skill_os.Jobs.Sessions.{Shared, looked, Step, looks, inserts, claims, settles, reaps}

sym_false : (m n : ℕ) → (m == n) ≡ false → (n == m) ≡ false
sym_false m n h = ground arith

module _ {J : Type 0} where
  -- A change that makes no row active and keeps its type and key.
  abbrev pub Calms : WorkerJob J → WorkerJob J → Type 0
  Calms r s =
      ((is_active s.status ≡ true) → (is_active r.status ≡ true))
      × (s.job_type ≡ r.job_type)
      × (s.dedup_key ≡ r.dedup_key)

  pub if-Calms :
      (b : Bool) (r s : WorkerJob J) → (b ≡ true → Calms r s) → Calms r (if b then s else r)
  if-Calms true r s h = h refl
  if-Calms false r s h = (λ e. e, refl, refl)

  pub settle-Calms : (now : ℕ) (o : Outcome J) (r : WorkerJob J) → Calms r (settle now o r)
  settle-Calms now (finished summary) r = (λ e. absurd (ground arith), refl, refl)
  settle-Calms now (cycle_failed summary message) r = (λ e. absurd (ground arith), refl, refl)
  settle-Calms now (crashed message) r = (λ e. absurd (ground arith), refl, refl)

  queued-Calms : (now : ℕ) (r : WorkerJob J) → is_queued r.status ≡ true → Calms r (claimed now r)
  queued-Calms now r h = (λ e. active r.status h, refl, refl)
    where
      active : (s : JobStatus) → is_queued s ≡ true → is_active s ≡ true
      active s h = ground arith

  pub claim-Calms :
      (now : ℕ) (j : WorkerJob J) (r : WorkerJob J)
      → ((r.id == j.id) ≡ true → is_queued r.status ≡ true)
      → Calms r (at_id j.id (claimed now) r)
  claim-Calms now j r h = if-Calms (r.id == j.id) r (claimed now r) (λ e. queued-Calms now r (h e))

  pub reaped-Calms : (older_than now : ℕ) (r : WorkerJob J) → Calms r (reaped older_than now r)
  reaped-Calms older_than now r = if-Calms _ r _ (λ e. settle-Calms now (crashed "") r)

  settle-id : (now : ℕ) (o : Outcome J) (r : WorkerJob J) → (settle now o r).id ≡ r.id
  settle-id now (finished summary) r = refl
  settle-id now (cycle_failed summary message) r = refl
  settle-id now (crashed message) r = refl

  -- A change of the rows that keeps their ids.
  change-IsTable :
      (f : WorkerJob J → WorkerJob J) (q : Queue J)
      → ((r : WorkerJob J) → (f r).id ≡ r.id)
      → IsTable q
      → IsTable (record q { rows = map f q.rows })
  change-IsTable f q same (below, keyed) =
      (map-below f q.next_id q.rows same below, map-IsKeyed f q.rows same keyed)

  pub Step-IsTable : {s u : Shared J} → Step s u → IsTable s.queue → IsTable u.queue
  unfolding insert_row change_row reap_stale_running
  Step-IsTable (looks s q) h = elim (Option-cases (find_active q.job_type q.key s.queue.rows)) [
    | inl e ↦ subst (λ o. IsTable (looked o q s).queue) (sym e) h
    | inr (r, e) ↦ subst (λ o. IsTable (looked o q s).queue) (sym e) h
  ]
  Step-IsTable (inserts s now earlier q later e) h = snoc-IsTable s.queue _ refl h
  Step-IsTable (claims s free now) h = elim (Option-cases (oldest (keep free s.queue.rows))) [
    | inl e ↦ subst (λ o. IsTable (claim_row now o s.queue).1) (sym e) h
    | inr (j, e) ↦
        subst (λ o. IsTable (claim_row now o s.queue).1) (sym e)
          (change-IsTable (at_id j.id (claimed now)) s.queue
            (at_id-id j.id (claimed now) (λ r. refl)) h)
  ]
  Step-IsTable (settles s id now o) h =
      change-IsTable (at_id id (settle now o)) s.queue
        (at_id-id id (settle now o) (settle-id now o)) h
  Step-IsTable (reaps s older_than now) h =
      change-IsTable (reaped older_than now) s.queue (reaped-id older_than now) h

  All-keep :
      (P : WorkerJob J → Type 0) (free : WorkerJob J → Bool) (rs : List (WorkerJob J))
      → All P rs
      → All P (keep free rs)
  All-keep P free [] h = _
  All-keep P free (r ∷ rs) (p, h) = kept (free r) (All-keep P free rs h)
    where
      kept :
          (b : Bool) → All P (keep free rs) → All P (if b then r ∷ keep free rs else keep free rs)
      kept true l = (p, l)
      kept false l = l

  -- A row of the id of this one is queued.
  abbrev pub IsWaiting : WorkerJob J → WorkerJob J → Type 0
  IsWaiting j r = (r.id == j.id) ≡ true → is_queued r.status ≡ true

  other-IsWaiting : (j r : WorkerJob J) → (r.id == j.id) ≡ false → IsWaiting j r
  other-IsWaiting j r f g = absurd (ground arith)

  -- The row that a claim picks is queued in the table.
  pub free-IsWaiting :
      (free : WorkerJob J → Bool) (rs : List (WorkerJob J)) (j : WorkerJob J)
      → IsKeyed rs
      → oldest (keep free rs) ≡ some j
      → All (IsWaiting j) rs
  free-IsWaiting free [] j h e = _
  free-IsWaiting free (r ∷ rs) j (d, h) e = by_free (free r) (free-IsWaiting free rs j h) e
    where
      first : is_queued r.status ≡ true → j ≡ r → All (IsWaiting j) (r ∷ rs)
      first queued same = (
        (λ g. queued),
        All-map (λ s. (s.id == r.id) ≡ false) (IsWaiting j) rs
            (λ s f. other-IsWaiting j s (ap (λ x. s.id == x.id) same ∙ f)) d,
      )

      after :
          (oldest (keep free rs) ≡ some j → All (IsWaiting j) rs)
          → oldest (keep free rs) ≡ some j
          → All (IsWaiting j) (r ∷ rs)
      after rest e = (
        other-IsWaiting j r (
            sym_false j.id r.id
              (oldest-found (λ s. (s.id == r.id) ≡ false) (keep free rs) j e
                (All-keep (λ s. (s.id == r.id) ≡ false) free rs d)).0),
        rest e,
      )

      by_free :
          (b : Bool)
          → (oldest (keep free rs) ≡ some j → All (IsWaiting j) rs)
          → oldest (if b then r ∷ keep free rs else keep free rs) ≡ some j
          → All (IsWaiting j) (r ∷ rs)
      by_free true rest e = elim (picked (is_queued r.status) r (oldest (keep free rs)) j e) [
        | inl (queued, same) ↦ first queued same
        | inr e' ↦ after rest e'
      ]
      by_free false rest e = after rest e
