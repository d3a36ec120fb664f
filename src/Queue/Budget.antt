-- ===== src/Queue/Budget.antt =====
-- The byte budgets of app/crawl/repository.py: what holds of the cached budget columns of the jobs,
-- and how the single statements on jobs and tasks keep it.
pub mod Statements
pub mod Leases
pub mod Ends
pub mod Finishes
pub mod Inserts
pub mod Claims
pub mod Claimed
pub mod Leased
pub mod Submit
pub mod Jobs
pub mod Ledger
pub mod Retry
use crawltrove.Base.{
  ℕ, ◌+◌, ◌-◌, ◌≤◌, ◌≡◌, refl, sym, Bool, true, false, List, [], ◌∷◌, ◌++◌, if◌then◌else◌, ◌==◌,
  ==_iff, arith, update_where, find_where, sum_where, sum_of, All, Any, Row, Distinct, All-weaken,
  All-update_where, All-append, Any-append, Any-last, Any-update_where, All-Row,
  Distinct-update_where, Distinct-append, sum_of-update_same, sum_of-update_one, Distinct-Row,
  Bool-cases, inl, inr, ap,
}
use crawltrove.Queue.States.{is_leased}
use crawltrove.Queue.Rows.{Job, Task, Db}
use crawltrove.Queue.Ledger.{job_named, task_named}
use crawltrove.Queue.Jobs.{task_of}

abbrev pub bytes_in : List Task → ℕ → ℕ
bytes_in tasks job = sum_where (task_of job) (λ t. t.byte_budget_reserved) tasks

abbrev pub artifacts_in : List Task → ℕ → ℕ
artifacts_in tasks job = sum_where (task_of job) (λ t. t.artifact_budget_reserved) tasks

abbrev pub slack_at : ℕ → ℕ → ℕ → ℕ
slack_at job slack id = if id == job then slack else 0

-- The cached reservations are the sums over the tasks, and with what was spent they leave room for
-- `bytes` and `artifacts` more in the job named `job`.
pub record JobFits (job bytes artifacts : ℕ) (tasks : List Task) (j : Job) : Type 0 where
  pub reserved : j.reserved_bytes ≡ bytes_in tasks j.id
  pub reserved_artifacts : j.reserved_artifact_bytes ≡ artifacts_in tasks j.id
  pub fits : j.downloaded_bytes + j.reserved_bytes + slack_at job bytes j.id ≤ j.max_bytes
  pub artifacts_fit :
      j.artifact_bytes + j.reserved_artifact_bytes + slack_at job artifacts j.id
      ≤ j.max_artifact_bytes

-- A task that is not leased reserves nothing.
abbrev pub IsIdle : Task → Type 0
IsIdle t =
    is_leased t.state ≡ false → (t.byte_budget_reserved ≡ 0) × (t.artifact_budget_reserved ≡ 0)

pub record IsBudgeted (job bytes artifacts : ℕ) (jobs : List Job) (tasks : List Task) : Type 0 where
  pub job_ids : Distinct (λ (j : Job). j.id) jobs
  pub task_ids : Distinct (λ (t : Task). t.id) tasks
  pub idle : All IsIdle tasks
  pub owned : All (λ t. Any (λ (j : Job). j.id ≡ t.job_id) jobs) tasks
  pub all_fit : All (JobFits job bytes artifacts tasks) jobs

-- The budget invariant of a store, with room for more in one job.
abbrev pub Budget : ℕ → ℕ → ℕ → Db → Type 0
Budget job bytes artifacts db = IsBudgeted job bytes artifacts db.jobs db.tasks

-- The columns of a job that the invariant reads are the same.
pub record SameBudget (i j : Job) : Type 0 where
  pub id : i.id ≡ j.id
  pub max_bytes : i.max_bytes ≡ j.max_bytes
  pub max_artifact_bytes : i.max_artifact_bytes ≡ j.max_artifact_bytes
  pub downloaded : i.downloaded_bytes ≡ j.downloaded_bytes
  pub reserved : i.reserved_bytes ≡ j.reserved_bytes
  pub artifacts : i.artifact_bytes ≡ j.artifact_bytes
  pub reserved_artifacts : i.reserved_artifact_bytes ≡ j.reserved_artifact_bytes

-- An update of a task keeps what names it and its job.
abbrev pub KeepsKeys : (Task → Task) → Type 0
KeepsKeys f = (t : Task) → ((f t).id ≡ t.id) × ((f t).job_id ≡ t.job_id)

-- The reservations of a task are the same, and it is idle if it is not leased.
pub record SameReserve (s t : Task) : Type 0 where
  pub bytes : s.byte_budget_reserved ≡ t.byte_budget_reserved
  pub artifacts : s.artifact_budget_reserved ≡ t.artifact_budget_reserved
  pub idle : IsIdle s
