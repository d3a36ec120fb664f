-- ===== src/Queue/Jobs/Recount.antt =====
-- `reconcile_job` of app/crawl/repository.py.
use crawltrove.Base.{
  ℕ, ◌+◌, max, String, Bool, true, false, List, [], ◌∷◌, ◌&&◌, if◌then◌else◌, ◌==◌, update_where,
  exists_where, count_where, sum_where,
}
use crawltrove.Queue.States.{TaskState, is_terminal, is_succeeded, is_failure, is_blocked}
use crawltrove.Queue.Rows.{Job, Task, Attempt, Db}
use crawltrove.Queue.Meters.{amount_of}
use crawltrove.Queue.Ledger.{job_named}

abbrev pub task_of : ℕ → Task → Bool
task_of job t = t.job_id == job

-- COALESCE(max(discovery_seq) + 1, 1)
unfoldable pub next_seq : ℕ → List Task → ℕ
next_seq job [] = 1
next_seq job (t ∷ rest) =
    let later = next_seq job rest in
    if task_of job t then max (t.discovery_seq + 1) later else later

abbrev pub job_tasks_where : ℕ → (TaskState → Bool) → Task → Bool
job_tasks_where job p t = t.job_id == job && p t.state

abbrev pub attempt_cost : ℕ → String → List Attempt → ℕ
attempt_cost job meter = sum_where (λ a. a.job_id == job) (λ a. amount_of meter a.actual_cost)

-- The counters of a job as its task and attempt rows give them.
unfoldable pub recount : Db → Job → Job
unfolding next_seq
recount db j = record j {
  discovered_count = count_where (task_of j.id) db.tasks;
  terminal_count = count_where (job_tasks_where j.id is_terminal) db.tasks;
  succeeded_count = count_where (job_tasks_where j.id is_succeeded) db.tasks;
  failed_count = count_where (job_tasks_where j.id is_failure) db.tasks;
  blocked_count = count_where (job_tasks_where j.id is_blocked) db.tasks;
  reserved_bytes = sum_where (task_of j.id) (λ t. t.byte_budget_reserved) db.tasks;
  reserved_artifact_bytes = sum_where (task_of j.id) (λ t. t.artifact_budget_reserved) db.tasks;
  next_discovery_seq = next_seq j.id db.tasks;
  downloaded_bytes = attempt_cost j.id "downloaded_bytes" db.attempts;
  artifact_bytes = attempt_cost j.id "artifact_bytes" db.attempts;
}

-- `reconcile_job`
unfoldable pub reconcile_job : Db → ℕ → Db × Bool
unfolding recount
reconcile_job db job =
    if exists_where (job_named job) db.jobs
    then (record db { jobs = update_where (job_named job) (recount db) db.jobs }, true)
    else (db, false)
