-- ===== src/Tests/Jobs.antt =====
-- Runs of the queue of worker jobs.
use fin_skill_os.Prelude.{
  ℕ, max, arith, ◌+◌, ◌≤◌, ◌≡◌, refl, ◌⊎◌, Option, none, some, List, [], ◌∷◌, map, String, str_eq,
  if◌then◌else◌,
}
use fin_skill_os.Jobs.{
  WorkerJob, Queue, JobStatus, Outcome, finished, crashed, enqueue, insert_row, claim_next,
  change_row, reap_stale_running, reap_stale_running_jobs, drain_loop, drain_queue,
}
use fin_skill_os.Jobs.Counts.{count_queued}
use fin_skill_os.Jobs.Rows.{IsTable}
use fin_skill_os.Jobs.Sessions.{
  Request, Shared, look, insert, looks, inserts, Reaches, here, next, count_active, peak,
}
use fin_skill_os.Jobs.Contention.{count_active-peak}
use fin_skill_os.Jobs.Drain.{AreSettled, drain_queue-AreSettled}

abbrev nothing_yet : Queue ℕ
nothing_yet = record { rows = []; next_id = 1 }

-- The second request of a type and key gets the row of the first.
abbrev asked : Queue ℕ
asked = (enqueue "REFRESH_ALL" none "ui" (some "REFRESH_ALL") 10 nothing_yet).1

abbrev asked_again : Queue ℕ
asked_again = (enqueue "REFRESH_ALL" none "worker" (some "REFRESH_ALL") 11 asked).1

abbrev asked_news : Queue ℕ
asked_news = (enqueue "REFRESH_NEWS" (some 7) "ui" none 12 asked_again).1

abbrev refresh_all : String → Request ℕ
refresh_all who = record {
  job_type = "REFRESH_ALL";
  payload = none;
  requested_by = who;
  key = some "REFRESH_ALL";
}

-- Two sessions look before either inserts.
abbrev start : Shared ℕ
start = record { queue = nothing_yet; pending = [] }

abbrev first_looked : Shared ℕ
first_looked = look (refresh_all "ui") start

abbrev both_looked : Shared ℕ
both_looked = look (refresh_all "worker") first_looked

abbrev first_inserted : Shared ℕ
first_inserted = insert 10 (refresh_all "worker" ∷ []) (refresh_all "ui") [] both_looked

abbrev both_inserted : Shared ℕ
both_inserted = insert 11 [] (refresh_all "worker") [] first_inserted

overlapping : Reaches start both_inserted
overlapping =
    next both_inserted
      (next first_inserted
        (next both_looked (next first_looked here (looks start (refresh_all "ui")))
          (looks first_looked (refresh_all "worker")))
        (inserts both_looked 10 (refresh_all "worker" ∷ []) (refresh_all "ui") [] refl))
      (inserts first_inserted 11 [] (refresh_all "worker") [] refl)

-- Both have queued the job.
queued_twice : count_active "REFRESH_ALL" (some "REFRESH_ALL") both_inserted.queue.rows ≡ 2
unfolding insert_row
queued_twice = refl

count_active-peak_example :
    IsTable both_inserted.queue
    × (count_active "REFRESH_ALL" (some "REFRESH_ALL") both_inserted.queue.rows
        ≤ max 1 (peak "REFRESH_ALL" (some "REFRESH_ALL") overlapping))
count_active-peak_example =
    count_active-peak "REFRESH_ALL" (some "REFRESH_ALL") overlapping (_, _) refl (omega arith)

abbrev outcomes : String → Option ℕ → Outcome ℕ
outcomes job_type payload =
    if str_eq job_type "REFRESH_NEWS" then crashed "ValueError: no feed" else finished 1

abbrev ticks : ℕ → ℕ
ticks i = 100 + i

abbrev statuses : List (WorkerJob ℕ) → List JobStatus
statuses rows = map (λ r. r.status) rows

drained_statuses :
    statuses (drain_queue outcomes ticks 600 50 asked_news).1.rows
    ≡ JobStatus.done ∷ JobStatus.error ∷ []
unfolding drain_queue drain_loop claim_next change_row enqueue insert_row reap_stale_running_jobs
    reap_stale_running
drained_statuses = refl

abbrev drained : ℕ × Queue ℕ
drained = drain_queue outcomes ticks 600 1 asked_news

drain_queue-AreSettled_example :
    (count_queued asked_news.rows ≡ count_queued drained.1.rows + drained.0)
    × (drained.0 ≤ 1)
    × ((count_queued drained.1.rows ≡ 0) ⊎ (drained.0 ≡ 1))
    × AreSettled outcomes ticks (reap_stale_running_jobs 600 100 asked_news).rows drained.1.rows
unfolding enqueue insert_row
drain_queue-AreSettled_example =
    drain_queue-AreSettled outcomes ticks 600 1 asked_news drained.0 drained.1 ((refl, _), (_, _))
      refl
