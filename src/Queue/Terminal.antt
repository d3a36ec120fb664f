-- ===== src/Queue/Terminal.antt =====
-- `_terminalize` and `_reject_inactive_lease` of app/crawl/repository.py.
use crawltrove.Base.{
  ℕ, ◌+◌, String, Bool, true, false, Option, none, some, ◌&&◌, not, if◌then◌else◌, str_append, ◌==◌,
  is_some, sql_eq, update_where, find_where, exists_where,
}
use crawltrove.Queue.States.{
  TaskState, JobState, ErrorClass, permanent_failed, policy, is_leased, is_permanent_failed,
  is_cancelled_job, succeeded, http_error, blocked_robots, extraction_failed, leased, retry_wait,
  waiting_input,
}
use crawltrove.Queue.Rows.{Job, Task, EventMetadata, Run, Db}
use crawltrove.Queue.Results.{Result, ok, ◌>>=◌}
use crawltrove.Queue.Ledger.{job_named, reconcile_abandoned}
use crawltrove.Queue.Settle.{
  Fenced, no_metadata, deadline_expired, log_event, release_lease, finish_attempt,
  enforce_failure_limit,
}

-- the text of a task's state
abbrev pub state_name : TaskState → String
state_name TaskState.pending = "pending"
state_name leased = "leased"
state_name retry_wait = "retry_wait"
state_name succeeded = "succeeded"
state_name http_error = "http_error"
state_name blocked_robots = "blocked_robots"
state_name extraction_failed = "extraction_failed"
state_name permanent_failed = "permanent_failed"
state_name TaskState.cancelled = "cancelled"
state_name waiting_input = "waiting_input"

-- WHERE id = $1 AND lease_token = $2, with the token of the task's row
abbrev pub is_held : Task → Task → Bool
is_held t x = x.id == t.id && sql_eq t.lease_token x.lease_token

unfoldable pub end_task : ℕ → TaskState → Option ErrorClass → Option String → Task → Task
end_task now state cls code t = record t {
  state = state;
  error_class = cls;
  error_code = code;
  lease_owner = none;
  lease_token = none;
  lease_expires_at = none;
  byte_budget_reserved = 0;
  artifact_budget_reserved = 0;
  updated_at = now;
  finished_at = some now;
}

-- EXISTS (SELECT 1 FROM crawl_tasks WHERE job_id = … AND state = 'leased')
abbrev pub leased_in : ℕ → Task → Bool
leased_in job t = t.job_id == job && is_leased t.state

-- The counters of the job, and the end of a cancelled job whose last lease is gone.
unfoldable pub count_terminal : ℕ → TaskState → Bool → Job → Job
count_terminal now state active j =
    let ends = is_some j.cancel_requested_at && not active in
    record j {
      terminal_count = j.terminal_count + 1;
      failed_count = j.failed_count + (if is_permanent_failed state then 1 else 0);
      state = if ends then JobState.cancelled else j.state;
      finished_at = if ends then some now else j.finished_at;
    }

unfoldable pub end_run : JobState → ℕ → Run → Run
end_run s now r = record r { status = s; finished_at = some now }

abbrev pub set_run : Db → ℕ → JobState → ℕ → Db
set_run db run s now = record db { runs = update_where (λ r. r.id == run) (end_run s now) db.runs }

-- A job that is now cancelled ends its run.
unfoldable pub cancel_run : Db → ℕ → Option Job → Db
unfolding end_run
cancel_run db now none = db
cancel_run db now (some j) =
    if is_cancelled_job j.state then set_run db j.run_id JobState.cancelled now else db

-- The UPDATE of the task, the release of its lease and the job's counters.
unfoldable pub close_task : Db → ℕ → Task → TaskState → Option ErrorClass → Option String → Db
unfolding end_task release_lease count_terminal
close_task db now t state cls code =
    let ended = record db {
      tasks = update_where (is_held t) (end_task now state cls code) db.tasks;
    } in
    let freed = release_lease ended t in
    record freed {
      jobs =
          update_where (job_named t.job_id)
            (count_terminal now state (exists_where (leased_in t.job_id) freed.tasks)) freed.jobs;
    }

unfoldable pub limit_failures : Db → ℕ → Task → TaskState → Db
unfolding enforce_failure_limit
limit_failures db now t state =
    if is_permanent_failed state then enforce_failure_limit db now t else db

-- `_terminalize`
unfoldable pub terminalize : Db → ℕ → Task → TaskState → Option ErrorClass → Option String → Db
unfolding close_task cancel_run limit_failures finish_attempt
terminalize db now t state cls code =
    let closed = close_task db now t state cls code in
    let stopped = cancel_run closed now (find_where (job_named t.job_id) closed.jobs) in
    let limited = limit_failures stopped now t state in
    let finished =
      finish_attempt limited now t (state_name state) (record no_metadata { error_code = code }) 0
        0 in
    log_event finished t.job_id (some t.id) (str_append "task_" (state_name state))
      (EventMetadata.error_code code)

-- A lease that is void has its task ended, and the attempts made under it reconciled.
unfoldable pub reject :
    Db → ℕ → Fenced → TaskState → Option ErrorClass → Option String → Result (Db × Bool)
unfolding terminalize
reject db now f state cls code = do
  done ← reconcile_abandoned (terminalize db now f.task state cls code) now (some f.task.id)
  ok (done.0, true)

-- `_reject_inactive_lease`
unfoldable pub reject_inactive_lease : Db → ℕ → Fenced → Result (Db × Bool)
unfolding reject
reject_inactive_lease db now f =
    if is_some f.job.cancel_requested_at
    then reject db now f TaskState.cancelled none none
    else if deadline_expired now f
    then reject db now f permanent_failed (some policy) (some "deadline_exceeded")
    else ok (db, false)

-- The frame of every fenced operation: `task is None or await _reject_inactive_lease(conn, task)`.
abbrev pub when_active :
    {A : Type 0} → Db → ℕ → Option Fenced → A → (Fenced → Result (Db × A)) → Result (Db × A)
when_active db now none lost act = ok (db, lost)
when_active db now (some f) lost act = do
  r ← reject_inactive_lease db now f
  if r.1 then ok (r.0, lost) else act f
