-- ===== src/Jobs/Contention.antt =====
-- How many active jobs of one type and key sessions can bring about.
use fin_skill_os.Prelude.{
  ℕ, suc, ◌+◌, ◌≤◌, ◌≡◌, refl, sym, ap, ◌∙◌, Bool, true, ◌&&◌, Option, none, some, List, [], ◌∷◌,
  ◌++◌, All, All-of, All-map, map, keep, max, String, str_eq, eq_iff, ◌==◌, inl, inr, Bool-cases,
  if◌then◌else◌, ◌⊎◌, arith,
}
use fin_skill_os.Jobs.{
  WorkerJob, is_active, same_key, find_active, new_job, insert_row, oldest, at_id, change_row,
  claimed, claim_row, settle, reaped, reap_stale_running,
}
use fin_skill_os.Jobs.Rows.{IsTable}
use fin_skill_os.Jobs.Sessions.{
  Request, Shared, looked, insert, with_queue, Step, looks, inserts, claims, settles, reaps,
  Reaches, here, next, fits, count_active, asks, count_pending, peak,
}
use fin_skill_os.Jobs.Steps.{
  Calms, if-Calms, settle-Calms, claim-Calms, reaped-Calms, IsWaiting, free-IsWaiting, Step-IsTable,
}

same_key-eq : (a b : Option String) → same_key a b ≡ true → a ≡ b
same_key-eq none none e = refl
same_key-eq (some s) (some t) e = ap some ((eq_iff s t).0 e)
same_key-eq none (some t) e = absurd (ground arith)
same_key-eq (some s) none e = absurd (ground arith)

narrower : (a b c k : Bool) → (c ≡ true → b ≡ true) → (a && c && k) ≡ true → (a && b && k) ≡ true
narrower a b c k h e = ground arith

no_more :
    (b c : Bool) (m n : ℕ)
    → (b ≡ true → c ≡ true)
    → m ≤ n
    → (if b then suc m else m) ≤ (if c then suc n else n)
no_more b c m n h k = ground arith

module _ {J : Type 0} where
  module _ (t : String) (k : Option String) where
    calm-fits : (r s : WorkerJob J) → Calms r s → fits t k s ≡ true → fits t k r ≡ true
    calm-fits r s (active, same_type, same_name) e =
        narrower (str_eq r.job_type t) (is_active r.status) (is_active s.status)
          (same_key r.dedup_key k) active
          (ap (λ x. str_eq x t && is_active s.status && same_key r.dedup_key k) (sym same_type)
            ∙ ap (λ x. str_eq s.job_type t && is_active s.status && same_key x k) (sym same_name)
            ∙ e)

    -- A change that calms every row brings no active job.
    count-map :
        (f : WorkerJob J → WorkerJob J) (rs : List (WorkerJob J))
        → All (λ r. Calms r (f r)) rs
        → count_active t k (map f rs) ≤ count_active t k rs
    count-map f [] h = omega arith
    count-map f (r ∷ rs) (c, h) =
        no_more (fits t k (f r)) (fits t k r) _ _ (calm-fits r (f r) c) (count-map f rs h)

    count-snoc :
        (rs : List (WorkerJob J)) (j : WorkerJob J)
        → count_active t k (rs ++ j ∷ []) ≡ count_active t k rs + count_active t k (j ∷ [])
    count-snoc [] j = ground arith
    count-snoc (r ∷ rs) j = ground (arith, count-snoc rs j)

    count-removed :
        (es : List (Request J)) (q : Request J) (ls : List (Request J))
        → count_pending t k (es ++ q ∷ ls)
          ≡ count_pending t k (es ++ ls) + count_pending t k (q ∷ [])
    count-removed [] q ls = ground arith
    count-removed (e ∷ es) q ls = ground (arith, count-removed es q ls)

    count-none : (rs : List (WorkerJob J)) → find_active t k rs ≡ none → count_active t k rs ≡ 0
    count-none [] e = refl
    count-none (r ∷ rs) e = ground (arith, count-none rs)

    -- The new job is one of the type and key of its request.
    count-new :
        (q : Request J) (id now : ℕ)
        → count_active t k (new_job id q.job_type q.payload q.requested_by q.key now ∷ [])
          ≡ count_pending t k (q ∷ [])
    count-new q id now = ground arith

    count-unfound :
        (q : Request J) (rs : List (WorkerJob J))
        → asks t k q ≡ true
        → find_active q.job_type q.key rs ≡ none
        → count_active t k rs ≡ 0
    count-unfound q rs a e = count-none rs (
        ap (λ x. find_active x k rs) (sym ((eq_iff q.job_type t).0 (ground arith)))
        ∙ ap (λ x. find_active q.job_type x rs) (sym (same_key-eq q.key k (ground arith)))
        ∙ e)

    -- The active jobs and the pending requests of the type and key.
    abbrev in_all : Shared J → ℕ
    in_all s = count_active t k s.queue.rows + count_pending t k s.pending

    looked-count :
        (o : Option (WorkerJob J)) (q : Request J) (s : Shared J)
        → find_active q.job_type q.key s.queue.rows ≡ o
        → (in_all (looked o q s) ≤ in_all s) ⊎ (count_active t k (looked o q s).queue.rows ≡ 0)
    looked-count (some r) q s e = inl (omega arith)
    looked-count none q s e = elim (Bool-cases (asks t k q)) [
      | inl a ↦ inr (count-unfound q s.queue.rows a e)
      | inr a ↦ inl (ground (arith, a))
    ]

    map-count :
        (f : WorkerJob J → WorkerJob J) (s : Shared J)
        → All (λ r. Calms r (f r)) s.queue.rows
        → in_all (with_queue (record s.queue { rows = map f s.queue.rows }) s) ≤ in_all s
    map-count f s h = omega (arith, count-map f s.queue.rows h)

    claim-count :
        (o : Option (WorkerJob J)) (now : ℕ) (free : WorkerJob J → Bool) (s : Shared J)
        → IsTable s.queue
        → oldest (keep free s.queue.rows) ≡ o
        → in_all (with_queue (claim_row now o s.queue).1 s) ≤ in_all s
    unfolding change_row
    claim-count none now free s h e = omega arith
    claim-count (some j) now free s h e = map-count (at_id j.id (claimed now)) s (
        All-map (IsWaiting j) (λ r. Calms r (at_id j.id (claimed now) r)) s.queue.rows
          (λ r. claim-Calms now j r) (free-IsWaiting free s.queue.rows j h.1 e))

    insert-count :
        (now : ℕ) (es : List (Request J)) (q : Request J) (ls : List (Request J)) (s : Shared J)
        → s.pending ≡ es ++ q ∷ ls
        → in_all (insert now es q ls s) ≡ in_all s
    unfolding insert_row
    insert-count now es q ls s e =
        let job = new_job s.queue.next_id q.job_type q.payload q.requested_by q.key now in
        omega (
          arith,
          count-snoc s.queue.rows job,
          count-new q s.queue.next_id now,
          count-removed es q ls,
          ap (count_pending t k) e,
        )

    Step-count :
        {s u : Shared J}
        → Step s u
        → IsTable s.queue
        → (in_all u ≤ in_all s) ⊎ (count_active t k u.queue.rows ≡ 0)
    unfolding change_row reap_stale_running
    Step-count (looks s q) h = looked-count (find_active q.job_type q.key s.queue.rows) q s refl
    Step-count (inserts s now es q ls e) h = inl (omega (arith, insert-count now es q ls s e))
    Step-count (claims s free now) h =
        inl (claim-count (oldest (keep free s.queue.rows)) now free s h refl)
    Step-count (settles s id now o) h = inl (
        map-count (at_id id (settle now o)) s (
          All-of _ s.queue.rows
            (λ r. if-Calms (r.id == id) r (settle now o r) (λ e. settle-Calms now o r))))
    Step-count (reaps s older_than now) h =
        inl (
          map-count (reaped older_than now) s (All-of _ s.queue.rows (reaped-Calms older_than now)))

    Reaches-count :
        {s u : Shared J} (path : Reaches s u)
        → IsTable s.queue
        → in_all s ≤ 1
        → IsTable u.queue × (in_all u ≤ max 1 (peak t k path))
    Reaches-count here h low = (h, omega (arith, low))
    Reaches-count (next u path step) h low =
        let (table, bound) = Reaches-count path h low in
        (Step-IsTable step table, more_steps _ _ _ _ bound (Step-count step table))
      where
        more_steps : (m a c p : ℕ) → m ≤ max 1 p → (a + c ≤ m) ⊎ (a ≡ 0) → a + c ≤ max 1 (max p c)
        more_steps m a c p h k = ground arith

    -- Whatever steps of any sessions follow one another, from a table with distinct ids below the next
    -- one, where no request is pending and at most one job of the type and key is active: the ids stay so,
    -- and no more jobs of the type and key are active than requests of them were pending at once, or
    -- one. So a job is not queued twice unless two requests of it overlap.
    pub count_active-peak :
        {s u : Shared J} (path : Reaches s u)
        → IsTable s.queue
        → s.pending ≡ []
        → count_active t k s.queue.rows ≤ 1
        → IsTable u.queue × (count_active t k u.queue.rows ≤ max 1 (peak t k path))
    count_active-peak path h idle low =
        let (table, bound) =
          Reaches-count path h (omega (arith, ap (count_pending t k) idle, low)) in
        (table, omega (arith, bound))
