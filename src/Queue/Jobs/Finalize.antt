-- ===== src/Queue/Jobs/Finalize.antt =====
-- `finalize_jobs` of app/crawl/repository.py.
use crawltrove.Base.{
  ℕ, ◌+◌, String, Bool, true, false, none, some, List, [], ◌∷◌, ◌&&◌, ◌||◌, not, if◌then◌else◌,
  str_append, ◌==◌, ltb, leb, is_some, update_where, exists_where, count_where, select_where,
}
use crawltrove.Queue.States.{
  JobState, completed, partial, failed, timed_out, is_terminal, is_succeeded, is_failure,
  is_blocked, is_open, running,
}
use crawltrove.Queue.Rows.{Job, Task, EventMetadata, Db}
use crawltrove.Queue.Ledger.{job_named}
use crawltrove.Queue.Settle.{log_event, is_queued_of}
use crawltrove.Queue.Terminal.{set_run, end_run}
use crawltrove.Queue.Jobs.Cancel.{cancel_task}
use crawltrove.Queue.Jobs.Recount.{job_tasks_where}

-- The state in which a job with no task left ends.
unfoldable pub final_state : Bool → Bool → ℕ → ℕ → ℕ → JobState
final_state cancel_requested expired succeeded blocked failures =
    if cancel_requested
    then JobState.cancelled
    else if expired
    then timed_out
    else if ltb 0 succeeded || ltb 0 blocked && failures == 0
    then (if ltb 0 succeeded && ltb 0 failures then partial else completed)
    else failed

abbrev pub is_timed_out : JobState → Bool
is_timed_out timed_out = true
is_timed_out _ = false

unfoldable pub finish_job : ℕ → JobState → Job → Job
finish_job now s j = record j {
  state = s;
  finished_at = some now;
  terminal_reason = if is_timed_out s then some "deadline" else j.terminal_reason;
}

abbrev pub job_state_name : JobState → String
job_state_name JobState.pending = "pending"
job_state_name running = "running"
job_state_name completed = "completed"
job_state_name partial = "partial"
job_state_name failed = "failed"
job_state_name JobState.cancelled = "cancelled"
job_state_name timed_out = "timed_out"

unfoldable pub count_expired : ℕ → Job → Job
count_expired n j = record j { terminal_count = j.terminal_count + n }

-- The queued tasks of a job whose deadline is over end.
unfoldable pub cancel_expired : Db → ℕ → ℕ → Db
unfolding cancel_task count_expired
cancel_expired db now job =
    let n = count_where (is_queued_of job) db.tasks in
    record db {
      tasks = update_where (is_queued_of job) (cancel_task now) db.tasks;
      jobs = if n == 0 then db.jobs else update_where (job_named job) (count_expired n) db.jobs;
    }

abbrev pub is_nonterminal : ℕ → Task → Bool
is_nonterminal job t = t.job_id == job && not (is_terminal t.state)

unfoldable pub job_outcome : Db → Job → Bool → JobState
unfolding final_state
job_outcome db j expired =
    final_state (is_some j.cancel_requested_at) expired
      (count_where (job_tasks_where j.id is_succeeded) db.tasks)
      (count_where (job_tasks_where j.id is_blocked) db.tasks)
      (count_where (job_tasks_where j.id is_failure) db.tasks)

unfoldable pub close_job : Db → ℕ → Job → JobState → Db
unfolding finish_job end_run
close_job db now j s =
    let closed = record db { jobs = update_where (job_named j.id) (finish_job now s) db.jobs } in
    log_event (set_run closed j.run_id s now) j.id none (str_append "job_" (job_state_name s))
      EventMetadata.empty

-- One job of the loop of `finalize_jobs`, read before the loop, and how many jobs it finished.
unfoldable pub finalize_job : ℕ → Job → Db → Db × ℕ
unfolding cancel_expired job_outcome close_job
finalize_job now j db =
    let expired = leb j.deadline_at now in
    let drained = if expired then cancel_expired db now j.id else db in
    if exists_where (is_nonterminal j.id) drained.tasks
    then (drained, 0)
    else (close_job drained now j (job_outcome drained j expired), 1)

unfoldable pub finalize_rows : ℕ → List Job → Db → ℕ → Db × ℕ
unfolding finalize_job
finalize_rows now [] db n = (db, n)
finalize_rows now (j ∷ rest) db n =
    let (db', k) = finalize_job now j db in finalize_rows now rest db' (n + k)

-- `finalize_jobs`
unfoldable pub finalize_jobs : Db → ℕ → Db × ℕ
unfolding finalize_rows
finalize_jobs db now = finalize_rows now (select_where (λ j. is_open j.state) db.jobs) db 0
