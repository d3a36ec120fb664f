-- ===== src/Queue/Jobs/Cancel.antt =====
-- `request_cancel` of app/crawl/repository.py.
use crawltrove.Base.{
  ℕ, ◌+◌, Bool, true, false, none, some, List, ◌&&◌, not, if◌then◌else◌, ◌==◌, coalesce,
  update_where, find_where, exists_where, count_where,
}
use crawltrove.Queue.States.{TaskState, JobState, SessionState, is_finished, is_closed_session}
use crawltrove.Queue.Rows.{Job, Task, LiveSession, EventMetadata, Db}
use crawltrove.Queue.Results.{Result, ok, ◌>>=◌}
use crawltrove.Queue.Ledger.{job_named, reconcile_abandoned}
use crawltrove.Queue.Settle.{log_event, is_queued_of}
use crawltrove.Queue.Terminal.{leased_in, cancel_run}

unfoldable pub cancel_task : ℕ → Task → Task
cancel_task now t = record t {
  state = TaskState.cancelled;
  finished_at = some now;
  updated_at = now;
}

-- The sessions of the tasks that the cancellation ended, if they are not over.
abbrev pub session_of : ℕ → List Task → LiveSession → Bool
session_of job tasks s =
    exists_where (λ t. t.id == s.task_id && is_queued_of job t) tasks
    && not (is_closed_session s.state)

abbrev pub cancel_session : ℕ → LiveSession → LiveSession
cancel_session now s = record s { state = SessionState.cancelled; closed_at = some now }

unfoldable pub cancel_job : ℕ → ℕ → Bool → Job → Job
cancel_job now n active j = record j {
  cancel_requested_at = some (coalesce j.cancel_requested_at now);
  terminal_count = j.terminal_count + n;
  state = if active then j.state else JobState.cancelled;
  finished_at = if active then j.finished_at else some now;
}

-- The writes of `request_cancel` to an open job.
unfoldable pub cancel_open : Db → ℕ → ℕ → Db
unfolding cancel_task cancel_job cancel_run
cancel_open db now job =
    let n = count_where (is_queued_of job) db.tasks in
    let tasks' = update_where (is_queued_of job) (cancel_task now) db.tasks in
    let marked = record db {
      tasks = tasks';
      sessions = update_where (session_of job db.tasks) (cancel_session now) db.sessions;
      jobs =
          update_where (job_named job) (cancel_job now n (exists_where (leased_in job) tasks'))
            db.jobs;
    } in
    cancel_run marked now (find_where (job_named job) marked.jobs)

-- `request_cancel`
unfoldable pub request_cancel : Db → ℕ → ℕ → Result (Db × Bool)
unfolding cancel_open
request_cancel db now job = elim (find_where (job_named job) db.jobs) [
  | none ↦ ok (db, false)
  | some j ↦ if is_finished j.state then ok (db, true) else do
    r ← reconcile_abandoned (cancel_open db now job) now none
    ok (log_event r.0 job none "job_cancel_requested" EventMetadata.empty, true)
]
