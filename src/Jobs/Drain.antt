-- ===== src/Jobs/Drain.antt =====
-- What draining the queue comes to.
use fin_skill_os.Prelude.{
  ℕ, zero, suc, ◌+◌, ◌-◌, ◌≤◌, ◌≡◌, refl, sym, ap, ◌∙◌, subst, true, false, Option, none, some,
  List, [], ◌∷◌, All, All-of, map, String, ◌==◌, ◌⊎◌, inl, inr, Bool-cases, if_true, if_false,
  Option-cases, if◌then◌else◌, arith,
}
use fin_skill_os.Jobs.{
  WorkerJob, Queue, JobStatus, Outcome, finished, cycle_failed, crashed, is_queued, oldest, at_id,
  change_row, claimed, claim_row, claim_next, settle, drain_loop, drain_queue, reaped,
  reap_stale_running, reap_stale_running_jobs,
}
use fin_skill_os.Jobs.Rows.{IsKeyed, oldest-same, oldest-found, map-IsKeyed, at_id-id, reaped-id}
use fin_skill_os.Jobs.Counts.{
  count_queued, none_queued, pass_rows, passed, passed-other, passed-same, count-pass,
}

-- The status that an outcome leads to.
abbrev pub verdict : {J : Type 0} → Outcome J → JobStatus
verdict (finished summary) = JobStatus.done
verdict (cycle_failed summary message) = JobStatus.error
verdict (crashed message) = JobStatus.error

module _ {J : Type 0} (run : String → Option J → Outcome J) (clock : ℕ → ℕ) where
  -- A row before and after: unchanged, or queued and settled by what its job comes to.
  abbrev pub IsSettled : WorkerJob J → WorkerJob J → Type 0
  IsSettled r s =
      (s ≡ r)
      ⊎ ((is_queued r.status ≡ true)
          × (s.status ≡ verdict (run r.job_type r.payload))
          × (s.id ≡ r.id)
          × (s.job_type ≡ r.job_type))

  pub data AreSettled : List (WorkerJob J) → List (WorkerJob J) → Type 0 where
    no_rows : AreSettled [] []
    row :
        {r s : WorkerJob J} {rs ss : List (WorkerJob J)}
        → IsSettled r s
        → AreSettled rs ss
        → AreSettled (r ∷ rs) (s ∷ ss)

  verdict-queued : (o : Outcome J) → is_queued (verdict o) ≡ false
  verdict-queued (finished summary) = refl
  verdict-queued (cycle_failed summary message) = refl
  verdict-queued (crashed message) = refl

  settle-verdict : (now : ℕ) (o : Outcome J) (r : WorkerJob J) → (settle now o r).status ≡ verdict o
  settle-verdict now (finished summary) r = refl
  settle-verdict now (cycle_failed summary message) r = refl
  settle-verdict now (crashed message) r = refl

  settle-kept :
      (now : ℕ) (o : Outcome J) (r : WorkerJob J)
      → ((settle now o r).id ≡ r.id) × ((settle now o r).job_type ≡ r.job_type)
  settle-kept now (finished summary) r = (refl, refl)
  settle-kept now (cycle_failed summary message) r = (refl, refl)
  settle-kept now (crashed message) r = (refl, refl)

  unchanged : (rs : List (WorkerJob J)) → AreSettled rs rs
  unchanged [] = no_rows
  unchanged (r ∷ rs) = row (inl refl) (unchanged rs)

  -- Once settled, a row is not queued again.
  IsSettled-trans : (r s t : WorkerJob J) → IsSettled r s → IsSettled s t → IsSettled r t
  IsSettled-trans r s t (inl e) h = subst (λ x. IsSettled x t) e h
  IsSettled-trans r s t (inr h) (inl e) = inr (
      subst
        (λ x.
          (is_queued r.status ≡ true)
          × (x.status ≡ verdict (run r.job_type r.payload))
          × (x.id ≡ r.id)
          × (x.job_type ≡ r.job_type))
        (sym e) h)
  IsSettled-trans r s t (inr (q, v, i, j)) (inr (q', v', i', j')) =
      absurd (both (sym (ap is_queued v ∙ verdict-queued (run r.job_type r.payload)) ∙ q'))
    where
      both : false ≡ true → ⊥
      both e = ground arith

  AreSettled-trans :
      {rs ss ts : List (WorkerJob J)} → AreSettled rs ss → AreSettled ss ts → AreSettled rs ts
  AreSettled-trans no_rows no_rows = no_rows
  AreSettled-trans (row {r} {s} h k) (row {r = _} {s = t} i j) =
      row (IsSettled-trans r s t h i) (AreSettled-trans k j)

  module _ (j : WorkerJob J) (queued : is_queued j.status ≡ true) (now later : ℕ) where
    passed-IsSettled :
        (r : WorkerJob J)
        → ((r.id == j.id) ≡ true → r ≡ j)
        → IsSettled r (passed j now later (run j.job_type j.payload) r)
    passed-IsSettled r h = elim (Bool-cases (r.id == j.id)) [
      | inr e ↦ inl (passed-other j now later _ r e)
      | inl e ↦
          subst (λ x. IsSettled x (passed j now later (run j.job_type j.payload) x)) (sym (h e))
            (subst (IsSettled j)
              (sym (
                passed-same j now later (run j.job_type j.payload) j
                  (subst (λ x. (x.id == j.id) ≡ true) (h e) e)))
              settled)
    ]
      where
        settled : IsSettled j (settle later (run j.job_type j.payload) (claimed now j))
        settled =
            let (i, t) = settle-kept later (run j.job_type j.payload) (claimed now j) in
            inr (queued, settle-verdict later (run j.job_type j.payload) (claimed now j), i, t)

    pass_rows-AreSettled :
        (rs : List (WorkerJob J))
        → All (λ r. (r.id == j.id) ≡ true → r ≡ j) rs
        → AreSettled rs (pass_rows j now later (run j.job_type j.payload) rs)
    pass_rows-AreSettled [] h = no_rows
    pass_rows-AreSettled (r ∷ rs) (e, h) = row (passed-IsSettled r e) (pass_rows-AreSettled rs h)

  loop_none :
      (left i processed : ℕ) (q : Queue J)
      → oldest q.rows ≡ none
      → drain_loop run clock (suc left) i processed q ≡ (processed, q)
  unfolding drain_loop claim_next
  loop_none left i processed q e =
      ap
        (λ o. elim ((claim_row (clock i) o q).0) [
          | none ↦ (processed, q)
          | some job ↦ drain_loop run clock left (i + 2) (suc processed) (
              change_row job.id (settle (clock (i + 1)) (run job.job_type job.payload))
                (claim_row (clock i) o q).1)
        ])
        e

  after : ℕ → WorkerJob J → Queue J → Queue J
  after i j q =
      change_row j.id (settle (clock (i + 1)) (run j.job_type j.payload))
        (change_row j.id (claimed (clock i)) q)

  loop_some :
      (left i processed : ℕ) (q : Queue J) (j : WorkerJob J)
      → oldest q.rows ≡ some j
      → drain_loop run clock (suc left) i processed q
        ≡ drain_loop run clock left (i + 2) (suc processed) (after i j q)
  unfolding drain_loop claim_next after
  loop_some left i processed q j e =
      ap
        (λ o. elim ((claim_row (clock i) o q).0) [
          | none ↦ (processed, q)
          | some job ↦ drain_loop run clock left (i + 2) (suc processed) (
              change_row job.id (settle (clock (i + 1)) (run job.job_type job.payload))
                (claim_row (clock i) o q).1)
        ])
        e

  -- So many jobs are settled, until none is queued or the passes are used up.
  abbrev pub IsDrained : ℕ → ℕ → Queue J → ℕ × Queue J → Type 0
  IsDrained passes processed q (total, r) =
      (m : ℕ) × (total ≡ processed + m)
      × (count_queued q.rows ≡ count_queued r.rows + m)
      × (m ≤ passes)
      × ((count_queued r.rows ≡ 0) ⊎ (m ≡ passes))
      × AreSettled q.rows r.rows

  after-IsKeyed :
      (i : ℕ) (j : WorkerJob J) (q : Queue J) → IsKeyed q.rows → IsKeyed (after i j q).rows
  unfolding after change_row
  after-IsKeyed i j q keyed =
      map-IsKeyed (at_id j.id (settle (clock (i + 1)) (run j.job_type j.payload))) _
        (at_id-id j.id (settle (clock (i + 1)) (run j.job_type j.payload))
          (λ r. (settle-kept (clock (i + 1)) (run j.job_type j.payload) r).0))
        (map-IsKeyed (at_id j.id (claimed (clock i))) q.rows
          (at_id-id j.id (claimed (clock i)) (λ r. refl)) keyed)

  pass-IsDrained :
      (left i processed : ℕ) (q : Queue J) (j : WorkerJob J)
      → IsKeyed q.rows
      → oldest q.rows ≡ some j
      → (found : ℕ × Queue J) → IsDrained left (suc processed) (after i j q) found
      → IsDrained (suc left) processed q found
  unfolding after change_row
  pass-IsDrained left i processed q j keyed e (total, r) (m, t, c, l, z, s) =
      let o = run j.job_type j.payload in
      (
        suc m,
        ground arith,
        sym (count-pass j (clock i) (clock (i + 1)) o q.rows keyed e) ∙ ap suc c ∙ ground arith,
        ground arith,
        elim z [ inl a ↦ inl a | inr b ↦ inr (ap suc b) ],
        AreSettled-trans
            (pass_rows-AreSettled j
              (oldest-found (λ _. Unit {0}) q.rows j e (All-of (λ _. Unit {0}) q.rows (λ _. _))).1
              (clock i) (clock (i + 1)) q.rows (oldest-same q.rows j keyed e))
            s,
      )

  pub drain_loop-IsDrained :
      (left i processed : ℕ) (q : Queue J)
      → IsKeyed q.rows
      → IsDrained left processed q (drain_loop run clock left i processed q)
  unfolding drain_loop
  drain_loop-IsDrained zero i processed q keyed =
      (0, ground arith, ground arith, ground arith, inr refl, unchanged q.rows)
  drain_loop-IsDrained (suc left) i processed q keyed = elim (Option-cases (oldest q.rows)) [
    | inl e ↦
        subst (IsDrained (suc left) processed q) (sym (loop_none left i processed q e)) (
          0,
          ground arith,
          ground arith,
          ground arith,
          inl (none_queued q.rows e),
          unchanged q.rows,
        )
    | inr (j, e) ↦
        subst (IsDrained (suc left) processed q) (sym (loop_some left i processed q j e)) (
          pass-IsDrained left i processed q j keyed e
            (drain_loop run clock left (i + 2) (suc processed) (after i j q))
            (drain_loop-IsDrained left (i + 2) (suc processed) (after i j q)
              (after-IsKeyed i j q keyed)))
  ]

  -- Reaping touches no queued job.
  count-reaped :
      (older_than now : ℕ) (rs : List (WorkerJob J))
      → count_queued (map (reaped older_than now) rs) ≡ count_queued rs
  count-reaped older_than now [] = refl
  count-reaped older_than now (r ∷ rs) =
      ap
        (λ b.
          if b
          then suc (count_queued (map (reaped older_than now) rs))
          else count_queued (map (reaped older_than now) rs))
        (stale-queued r)
      ∙ ap (λ n. if is_queued r.status then suc n else n) (count-reaped older_than now rs)
    where
      stale-queued :
          (r : WorkerJob J) → is_queued (reaped older_than now r).status ≡ is_queued r.status
      stale-queued r = ground arith

  count-reap :
      (seconds now : ℕ) (q : Queue J)
      → count_queued (reap_stale_running_jobs seconds now q).rows ≡ count_queued q.rows
  unfolding reap_stale_running_jobs reap_stale_running
  count-reap seconds now q = elim (Bool-cases (seconds == 0)) [
    | inl e ↦ ap (λ x. count_queued x.rows) (if_true (seconds == 0) q _ e)
    | inr e ↦
        ap (λ x. count_queued x.rows) (if_false (seconds == 0) q _ e)
        ∙ count-reaped (now - seconds) now q.rows
  ]

  reap-IsKeyed :
      (seconds now : ℕ) (q : Queue J)
      → IsKeyed q.rows
      → IsKeyed (reap_stale_running_jobs seconds now q).rows
  unfolding reap_stale_running_jobs reap_stale_running
  reap-IsKeyed seconds now q keyed = elim (Bool-cases (seconds == 0)) [
    | inl e ↦ subst (λ x. IsKeyed x.rows) (sym (if_true (seconds == 0) q _ e)) keyed
    | inr e ↦
        subst (λ x. IsKeyed x.rows) (sym (if_false (seconds == 0) q _ e))
          (map-IsKeyed (reaped (now - seconds) now) q.rows (reaped-id (now - seconds) now) keyed)
  ]

  -- Draining a table with distinct ids, by one worker alone, settles as many queued jobs as it says,
  -- at most the cap, and either leaves none queued or reaches the cap. Every other row stays as the
  -- reaping leaves it, and a settled row was queued and is DONE or ERROR as its job comes out.
  pub drain_queue-AreSettled :
      (seconds max_jobs : ℕ) (q : Queue J) (processed : ℕ) (r : Queue J)
      → IsKeyed q.rows
      → drain_queue run clock seconds max_jobs q ≡ (processed, r)
      → (count_queued q.rows ≡ count_queued r.rows + processed)
        × (processed ≤ max_jobs)
        × ((count_queued r.rows ≡ 0) ⊎ (processed ≡ max_jobs))
        × AreSettled (reap_stale_running_jobs seconds (clock 0) q).rows r.rows
  unfolding drain_queue
  drain_queue-AreSettled seconds max_jobs q processed r keyed e =
      let reap = reap_stale_running_jobs seconds (clock 0) q in
      let (m, t, c, l, z, s) =
        subst (IsDrained max_jobs 0 reap) e
          (drain_loop-IsDrained max_jobs 1 0 reap (reap-IsKeyed seconds (clock 0) q keyed)) in
      (
        sym (count-reap seconds (clock 0) q) ∙ c ∙ ground arith,
        ground arith,
        elim z [ inl a ↦ inl a | inr b ↦ inr (ground arith) ],
        s,
      )
