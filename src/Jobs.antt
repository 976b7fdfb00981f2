-- ===== src/Jobs.antt =====
-- The queue of worker jobs: WorkerJobRepository of finskillos/db/repositories/system_ops_repo.py, and
-- drain_queue of scripts/refresh_worker.py. A row that no order picks is the first of the table. An
-- operation is what its session does to the table when no other session comes between; Sessions lets
-- others come between the query of a request and its insert.
pub mod Rows
pub mod Sessions
pub mod Steps
pub mod Contention
pub mod Counts
pub mod Drain
use fin_skill_os.Prelude.{
  ℕ, zero, suc, ◌+◌, ◌-◌, Bool, true, false, ◌&&◌, ◌||◌, Option, none, some, List, [], ◌∷◌, ◌++◌,
  map, String, str_eq, ltb, leb, ◌==◌, if◌then◌else◌,
}

pub data JobStatus : Type 0 where
  queued running done error : JobStatus

-- A payload and a result are JSON objects, times are numbers.
pub record WorkerJob (J : Type 0) : Type 0 where
  pub id : ℕ
  pub job_type : String
  pub status : JobStatus
  pub dedup_key : Option String
  pub requested_by : String
  pub payload : Option J
  pub result : Option J
  pub failure : Option String
  pub created_at : ℕ
  pub started_at : Option ℕ
  pub finished_at : Option ℕ

-- The table, and the id of the next row.
pub record Queue (J : Type 0) : Type 0 where
  pub rows : List (WorkerJob J)
  pub next_id : ℕ

-- What `run_cycle` comes to: a summary, WorkerCycleFailed with its summary, another exception.
pub data Outcome (J : Type 0) : Type 0 where
  finished : J → Outcome J
  cycle_failed : J → String → Outcome J
  crashed : String → Outcome J

abbrev pub is_queued : JobStatus → Bool
is_queued JobStatus.queued = true
is_queued _ = false

abbrev pub is_running : JobStatus → Bool
is_running JobStatus.running = true
is_running _ = false

-- `JOB_STATUS_ACTIVE`
abbrev pub is_active : JobStatus → Bool
is_active JobStatus.queued = true
is_active JobStatus.running = true
is_active _ = false

abbrev pub same_key : Option String → Option String → Bool
same_key none none = true
same_key (some s) (some t) = str_eq s t
same_key _ _ = false

abbrev pub started_before : ℕ → Option ℕ → Bool
started_before older_than none = false
started_before older_than (some started) = ltb started older_than

module _ {J : Type 0} where
  -- `_active`
  abbrev pub find_active : String → Option String → List (WorkerJob J) → Option (WorkerJob J)
  find_active job_type key [] = none
  find_active job_type key (r ∷ rs) =
      if str_eq r.job_type job_type && is_active r.status && same_key r.dedup_key key
      then some r
      else find_active job_type key rs

  abbrev pub new_job : ℕ → String → Option J → String → Option String → ℕ → WorkerJob J
  new_job id job_type payload requested_by key now = record {
    id = id;
    job_type = job_type;
    status = JobStatus.queued;
    dedup_key = key;
    requested_by = requested_by;
    payload = payload;
    result = none;
    failure = none;
    created_at = now;
    started_at = none;
    finished_at = none;
  }

  -- `session.add` of the new job, and the flush.
  unfoldable pub insert_row :
      String → Option J → String → Option String → ℕ → Queue J → WorkerJob J × Queue J
  insert_row job_type payload requested_by key now q =
      let job = new_job q.next_id job_type payload requested_by key now in
      (job, record { rows = q.rows ++ job ∷ []; next_id = suc q.next_id })

  unfoldable pub enqueue :
      String → Option J → String → Option String → ℕ → Queue J → WorkerJob J × Queue J
  enqueue job_type payload requested_by key now q = elim (find_active job_type key q.rows) [
    | some r ↦ (r, q)
    | none ↦ insert_row job_type payload requested_by key now q
  ]

  abbrev pub earlier : WorkerJob J → Option (WorkerJob J) → Option (WorkerJob J)
  earlier r none = some r
  earlier r (some s) = if ltb s.created_at r.created_at then some s else some r

  -- The queued job that was created first.
  abbrev pub oldest : List (WorkerJob J) → Option (WorkerJob J)
  oldest [] = none
  oldest (r ∷ rs) = if is_queued r.status then earlier r (oldest rs) else oldest rs

  -- A change of the row of an id.
  abbrev pub at_id : ℕ → (WorkerJob J → WorkerJob J) → WorkerJob J → WorkerJob J
  at_id id change r = if r.id == id then change r else r

  unfoldable pub change_row : ℕ → (WorkerJob J → WorkerJob J) → Queue J → Queue J
  change_row id change q = record q { rows = map (at_id id change) q.rows }

  abbrev pub claimed : ℕ → WorkerJob J → WorkerJob J
  claimed now r = record r { status = JobStatus.running; started_at = some now }

  abbrev pub claim_row : ℕ → Option (WorkerJob J) → Queue J → Option (WorkerJob J) × Queue J
  claim_row now none q = (none, q)
  claim_row now (some r) q = (some (claimed now r), change_row r.id (claimed now) q)

  unfoldable pub claim_next : ℕ → Queue J → Option (WorkerJob J) × Queue J
  claim_next now q = claim_row now (oldest q.rows) q

  -- `complete` and `fail`, on the row; a failed cycle's summary is kept as the result.
  abbrev pub completed : ℕ → J → WorkerJob J → WorkerJob J
  completed now summary r = record r {
    status = JobStatus.done;
    result = some summary;
    finished_at = some now;
  }

  abbrev pub failed : ℕ → String → WorkerJob J → WorkerJob J
  failed now message r = record r {
    status = JobStatus.error;
    failure = some message;
    finished_at = some now;
  }

  abbrev pub with_result : J → WorkerJob J → WorkerJob J
  with_result summary r = record r { result = some summary }

  abbrev pub settle : ℕ → Outcome J → WorkerJob J → WorkerJob J
  settle now (finished summary) r = completed now summary r
  settle now (cycle_failed summary message) r = failed now message (with_result summary r)
  settle now (crashed message) r = failed now message r

  abbrev pub is_stale : ℕ → WorkerJob J → Bool
  is_stale older_than r = is_running r.status && started_before older_than r.started_at

  abbrev pub reaped : ℕ → ℕ → WorkerJob J → WorkerJob J
  reaped older_than now r =
      if is_stale older_than r
      then failed now "worker stopped while the job was running (reaped)" r
      else r

  abbrev pub count_stale : ℕ → List (WorkerJob J) → ℕ
  count_stale older_than [] = 0
  count_stale older_than (r ∷ rs) =
      if is_stale older_than r then suc (count_stale older_than rs) else count_stale older_than rs

  unfoldable pub reap_stale_running : ℕ → ℕ → Queue J → ℕ × Queue J
  reap_stale_running older_than now q =
      (count_stale older_than q.rows, record q { rows = map (reaped older_than now) q.rows })

  -- `reap_stale_running_jobs`: off without a number of seconds.
  unfoldable pub reap_stale_running_jobs : ℕ → ℕ → Queue J → Queue J
  reap_stale_running_jobs seconds now q =
      if seconds == 0 then q else (reap_stale_running (now - seconds) now q).1

  module _ (run : String → Option J → Outcome J) (clock : ℕ → ℕ) where
    -- The loop, with the passes that are left, the readings of the clock so far, and the jobs
    -- processed. What a job comes to depends on its type and payload.
    unfoldable pub drain_loop : ℕ → ℕ → ℕ → Queue J → ℕ × Queue J
    drain_loop zero i processed q = (processed, q)
    drain_loop (suc left) i processed q = elim ((claim_next (clock i) q).0) [
      | none ↦ (processed, q)
      | some job ↦ drain_loop left (i + 2) (suc processed) (
          change_row job.id (settle (clock (i + 1)) (run job.job_type job.payload))
            (claim_next (clock i) q).1)
    ]

    unfoldable pub drain_queue : ℕ → ℕ → Queue J → ℕ × Queue J
    drain_queue seconds max_jobs q =
        drain_loop max_jobs 1 0 (reap_stale_running_jobs seconds (clock 0) q)
