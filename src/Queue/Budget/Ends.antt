-- ===== src/Queue/Budget/Ends.antt =====
-- The budget invariant under `_drain_unleased`, `_enforce_failure_limit`, `_terminalize` and
-- `_charge_download` of app/crawl/repository.py.
use crawltrove.Base.{
  ℕ, ◌-◌, ◌≤◌, ◌≡◌, refl, sym, String, Bool, true, false, Option, none, some, List, if_cases, ◌==◌,
  arith, and-eq-true, find_where, count_where,
}
use crawltrove.Queue.States.{
  TaskState, ErrorClass, is_unleased, is_leased, is_permanent_failed, is_cancelled_job,
}
use crawltrove.Queue.Rows.{Job, Task, Db}
use crawltrove.Queue.Ledger.{job_named}
use crawltrove.Queue.Settle.{
  release_lease, drain_unleased, drain_task, is_queued_of, enforce_failure_limit, over_limit,
  charge_download, add_download, finish_attempt,
}
use crawltrove.Queue.Terminal.{
  is_held, end_task, count_terminal, close_task, cancel_run, limit_failures, terminalize,
}
use crawltrove.Queue.Fence.{IsHeld, is_held_self}
use crawltrove.Queue.Budget.{Budget, IsBudgeted, IsIdle, SameBudget, SameReserve, JobFits}
use crawltrove.Queue.Budget.Statements.{Budget-jobs, Budget-tasks}
use crawltrove.Queue.Budget.Leases.{Frees, Picks, Budget-settle, Budget-charge, Budget-weaken}

-- the update matches the held row of the task and no other
pub held-Picks : {tasks : List Task} (t : Task) → IsHeld tasks t → Picks t (is_held t) tasks
held-Picks t h = record { only = λ x e. ground arith; hits = is_held_self t h; row = h.row }

-- A task that waits in the queue reserves nothing, so an update that ends it keeps the sums.
pub unleased_idle : (s : TaskState) → is_unleased s ≡ true → is_leased s ≡ false
unleased_idle s h = ground arith

pub drain_task-same :
    (now : ℕ) (reason : String) (job : ℕ) (t : Task)
    → IsIdle t
    → is_queued_of job t ≡ true
    → SameReserve (drain_task now reason t) t
unfolding drain_task
drain_task-same now reason job t idle e =
    let zero = idle (unleased_idle t.state (and-eq-true _ _ e).1) in
    record { bytes = sym zero.0; artifacts = sym zero.1; idle = λ _. (refl, refl) }

module _ {k bytes artifacts : ℕ} (db : Db) (now : ℕ) where
  pub drain_unleased-Budget :
      (job : ℕ) (reason : String)
      → Budget k bytes artifacts db
      → Budget k bytes artifacts (drain_unleased db now job reason)
  unfolding drain_unleased
  drain_unleased-Budget job reason h =
      let tasks =
        Budget-tasks (is_queued_of job) (drain_task now reason) (λ t. (refl, refl))
          (drain_task-same now reason job) h in
      if_cases (Budget k bytes artifacts) (count_where (is_queued_of job) db.tasks == 0) _ _
        (λ _. tasks)
        (λ _.
          Budget-jobs (job_named job) _
            (λ j. record {
              id = refl;
              max_bytes = refl;
              max_artifact_bytes = refl;
              downloaded = refl;
              reserved = refl;
              artifacts = refl;
              reserved_artifacts = refl;
            })
            tasks)

  pub limit_failures-Budget :
      (t : Task) (state : TaskState)
      → Budget k bytes artifacts db
      → Budget k bytes artifacts (limit_failures db now t state)
  unfolding limit_failures enforce_failure_limit
  limit_failures-Budget t state h =
      if_cases (Budget k bytes artifacts) (is_permanent_failed state) _ db
        (λ _.
          if_cases (Budget k bytes artifacts) (over_limit (find_where (job_named t.job_id) db.jobs))
            _ db (λ _. drain_unleased-Budget t.job_id "max_failures_exceeded" h) (λ _. h))
        (λ _. h)

  pub cancel_run-Budget :
      (o : Option Job)
      → Budget k bytes artifacts db
      → Budget k bytes artifacts (cancel_run db now o)
  unfolding cancel_run
  cancel_run-Budget none h = h
  cancel_run-Budget (some j) h =
      if_cases (Budget k bytes artifacts) (is_cancelled_job j.state) _ db (λ _. h) (λ _. h)

end_task-Frees :
    (now : ℕ) (state : TaskState) (cls : Option ErrorClass) (code : Option String)
    → Frees (end_task now state cls code)
unfolding end_task
end_task-Frees now state cls code = record {
  keys = λ t. (refl, refl);
  bytes = λ x. refl;
  artifacts = λ x. refl;
}

count_terminal-same :
    (now : ℕ) (state : TaskState) (active : Bool) (j : Job)
    → SameBudget (count_terminal now state active j) j
unfolding count_terminal
count_terminal-same now state active j = record {
  id = refl;
  max_bytes = refl;
  max_artifact_bytes = refl;
  downloaded = refl;
  reserved = refl;
  artifacts = refl;
  reserved_artifacts = refl;
}

-- Ending a held task turns its reservation into room in its job.
pub terminalize-Budget :
    {k : ℕ} (db : Db) (now : ℕ) (t : Task) (state : TaskState) (cls : Option ErrorClass)
    (code : Option String)
    → IsHeld db.tasks t
    → Budget k 0 0 db
    → Budget t.job_id t.byte_budget_reserved t.artifact_budget_reserved
        (terminalize db now t state cls code)
unfolding terminalize close_task release_lease finish_attempt
terminalize-Budget db now t state cls code held h = limit_failures-Budget _ now t state (
    cancel_run-Budget _ now _ (
      Budget-jobs (job_named t.job_id) _ (count_terminal-same now state _) (
        Budget-settle t (is_held t) (end_task now state cls code) (held-Picks t held)
          (end_task-Frees now state cls code) h)))

add_download-fits :
    {k bytes artifacts : ℕ} {tasks : List Task} (n : ℕ) (j : Job)
    → n ≤ bytes
    → JobFits k bytes artifacts tasks j
    → job_named k j ≡ true
    → JobFits k (bytes - n) (artifacts - 0) tasks (add_download n j)
unfolding add_download
add_download-fits n j le h e = record {
  reserved = h.reserved;
  reserved_artifacts = h.reserved_artifacts;
  fits = ground (arith, h.fits);
  artifacts_fit = ground (arith, h.artifacts_fit);
}

-- Room of any size may be given up.
pub Budget-close :
    {k bytes artifacts : ℕ} {jobs : List Job} {tasks : List Task} (k' : ℕ)
    → IsBudgeted k bytes artifacts jobs tasks
    → IsBudgeted k' 0 0 jobs tasks
Budget-close k' h = Budget-weaken k' 0 0 (λ id. ground arith) (λ id. ground arith) h

-- What a task downloaded is charged to its job's room.
pub charge_download-Budget :
    {bytes artifacts : ℕ} (db : Db) (t : Task) (n : ℕ)
    → n ≤ bytes
    → Budget t.job_id bytes artifacts db
    → Budget 0 0 0 (charge_download db t n)
unfolding charge_download
charge_download-Budget db t n le h =
    if_cases (Budget 0 0 0) (n == 0) _ _ (λ _. Budget-close 0 h)
      (λ _. Budget-close 0 (
        Budget-charge (add_download n) n 0 le (omega arith) (unfold add_download in λ j. refl)
          (λ j a e. add_download-fits n j le a e) h))
