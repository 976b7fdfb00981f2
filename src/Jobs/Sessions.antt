-- ===== src/Jobs/Sessions.antt =====
-- Sessions of clients and workers that share the table: the query and the insert of `enqueue` are two
-- steps, and any steps of other sessions come between. An insert or a change is a step when the others
-- see it.
use fin_skill_os.Prelude.{
  ℕ, suc, ◌≡◌, Bool, ◌&&◌, Option, none, some, List, [], ◌∷◌, ◌++◌, keep, max, String, str_eq,
  if◌then◌else◌,
}
use fin_skill_os.Jobs.{
  WorkerJob, Queue, Outcome, is_active, same_key, find_active, insert_row, oldest, change_row,
  claim_row, settle, reap_stale_running,
}

-- A call of `enqueue` between its query and its insert.
pub record Request (J : Type 0) : Type 0 where
  pub job_type : String
  pub payload : Option J
  pub requested_by : String
  pub key : Option String

-- The table, and the requests that found no active job and have not inserted theirs.
pub record Shared (J : Type 0) : Type 0 where
  pub queue : Queue J
  pub pending : List (Request J)

module _ {J : Type 0} where
  abbrev pub looked : Option (WorkerJob J) → Request J → Shared J → Shared J
  looked (some r) q s = s
  looked none q s = record s { pending = q ∷ s.pending }

  -- The query of `enqueue`; a job that is found is returned, and the request is over.
  abbrev pub look : Request J → Shared J → Shared J
  look q s = looked (find_active q.job_type q.key s.queue.rows) q s

  -- The insert of a request, which the others see from here on.
  abbrev pub insert : ℕ → List (Request J) → Request J → List (Request J) → Shared J → Shared J
  insert now earlier q later s = record {
    queue = (insert_row q.job_type q.payload q.requested_by q.key now s.queue).1;
    pending = earlier ++ later;
  }

  abbrev pub with_queue : Queue J → Shared J → Shared J
  with_queue queue s = record s { queue = queue }

  -- `claim_next`, by a session to which the rows that are locked are not free.
  abbrev pub claim_free : (WorkerJob J → Bool) → ℕ → Queue J → Queue J
  claim_free free now q = (claim_row now (oldest (keep free q.rows)) q).1

  -- A step of any session. The claim locks its row, and so is one step.
  pub data Step : Shared J → Shared J → Type 0 where
    looks : (s : Shared J) (q : Request J) → Step s (look q s)
    inserts :
        (s : Shared J) (now : ℕ) (earlier : List (Request J)) (q : Request J)
        (later : List (Request J))
        → s.pending ≡ earlier ++ q ∷ later
        → Step s (insert now earlier q later s)
    claims :
        (s : Shared J) (free : WorkerJob J → Bool) (now : ℕ)
        → Step s (with_queue (claim_free free now s.queue) s)
    settles :
        (s : Shared J) (id now : ℕ) (o : Outcome J)
        → Step s (with_queue (change_row id (settle now o) s.queue) s)
    reaps :
        (s : Shared J) (older_than now : ℕ)
        → Step s (with_queue (reap_stale_running older_than now s.queue).1 s)

  pub data Reaches (s : Shared J) : Shared J → Type 0 where
    here : Reaches s s
    next : {t : Shared J} (u : Shared J) → Reaches s t → Step t u → Reaches s u

  -- The active jobs of a type and key.
  abbrev pub fits : String → Option String → WorkerJob J → Bool
  fits t k r = str_eq r.job_type t && is_active r.status && same_key r.dedup_key k

  abbrev pub count_active : String → Option String → List (WorkerJob J) → ℕ
  count_active t k [] = 0
  count_active t k (r ∷ rs) = if fits t k r then suc (count_active t k rs) else count_active t k rs

  -- The pending requests of a type and key.
  abbrev pub asks : String → Option String → Request J → Bool
  asks t k q = str_eq q.job_type t && same_key q.key k

  abbrev pub count_pending : String → Option String → List (Request J) → ℕ
  count_pending t k [] = 0
  count_pending t k (q ∷ qs) =
      if asks t k q then suc (count_pending t k qs) else count_pending t k qs

  -- The most requests of a type and key that were pending at once.
  abbrev pub peak : (t : String) (k : Option String) {s u : Shared J} → Reaches s u → ℕ
  peak t k here = 0
  peak t k (next u path step) = max (peak t k path) (count_pending t k u.pending)
