-- ===== src/Queue/Budget/Jobs.antt =====
-- The budget invariant under `submit_job`, `request_cancel` and `finalize_jobs` of
-- app/crawl/repository.py.
use crawltrove.Base.{
  ℕ, ◌+◌, ◌≡◌, refl, true, none, List, [], ◌∷◌, if◌then◌else◌, if_cases, ◌==◌, leb, update_where,
  exists_where, select_where, find_where, count_where, Option-cases, inl, inr, and-eq-true,
}
use crawltrove.Queue.States.{is_open, is_finished}
use crawltrove.Queue.Rows.{Job, Task, Db}
use crawltrove.Queue.Results.{Keeps, Yields-bind}
use crawltrove.Queue.Ledger.{job_named, reconcile_abandoned}
use crawltrove.Queue.Settle.{is_queued_of}
use crawltrove.Queue.Jobs.{
  cancel_task, cancel_open, request_cancel, cancel_expired, close_job, is_nonterminal, finalize_job,
  finalize_rows, finalize_jobs,
}
use crawltrove.Queue.Frame.{reconcile_abandoned-Keeps}
use crawltrove.Queue.Budget.{Budget, IsBudgeted, IsIdle, SameReserve}
use crawltrove.Queue.Budget.Statements.{Budget-tasks, Budget-jobs}
use crawltrove.Queue.Budget.Ends.{cancel_run-Budget, unleased_idle}
use crawltrove.Queue.Budget.Finishes.{BudgetOn}

cancel_task-same :
    (now job : ℕ) (t : Task)
    → IsIdle t
    → is_queued_of job t ≡ true
    → SameReserve (cancel_task now t) t
unfolding cancel_task
cancel_task-same now job t idle e =
    let zero = idle (unleased_idle t.state (and-eq-true _ _ e).1) in
    record { bytes = refl; artifacts = refl; idle = λ _. zero }

cancel_open-Budget :
    (db : Db) (now job : ℕ) → Budget 0 0 0 db → Budget 0 0 0 (cancel_open db now job)
unfolding cancel_open
cancel_open-Budget db now job h = cancel_run-Budget _ now _ (
    Budget-jobs (job_named job) _
      (λ j. record {
        id = refl;
        max_bytes = refl;
        max_artifact_bytes = refl;
        downloaded = refl;
        reserved = refl;
        artifacts = refl;
        reserved_artifacts = refl;
      })
      (Budget-tasks (is_queued_of job) (cancel_task now) (λ t. (refl, refl))
        (cancel_task-same now job) h))

pub request_cancel-Budget :
    (db : Db) (now job : ℕ) → Budget 0 0 0 db → Keeps (Budget 0 0 0) (request_cancel db now job)
unfolding request_cancel
request_cancel-Budget db now job h = elim (Option-cases (find_where (job_named job) db.jobs)) [
  | inl e ↦ rw (e, request_cancel) h
  | inr (j, e) ↦
      rw (e, request_cancel)
        (if_cases (Keeps (Budget 0 0 0)) (is_finished j.state) _ _ (λ _. h)
          (λ _.
            Yields-bind (λ r. Budget 0 0 0 r.0) (λ r. Budget 0 0 0 r.0)
              (reconcile_abandoned (cancel_open db now job) now none) _
              (reconcile_abandoned-Keeps BudgetOn (cancel_open db now job) now none
                (cancel_open-Budget db now job h))
              (λ r k. k)))
]

cancel_expired-Budget :
    (db : Db) (now job : ℕ) → Budget 0 0 0 db → Budget 0 0 0 (cancel_expired db now job)
unfolding cancel_expired
cancel_expired-Budget db now job h =
    let tasks =
      Budget-tasks (is_queued_of job) (cancel_task now) (λ t. (refl, refl))
        (cancel_task-same now job) h in
    if_cases
      (λ jobs. IsBudgeted 0 0 0 jobs (update_where (is_queued_of job) (cancel_task now) db.tasks))
      (count_where (is_queued_of job) db.tasks == 0) db.jobs _ (λ _. tasks)
      (λ _.
        Budget-jobs (job_named job) _
          (λ j. record {
            id = refl;
            max_bytes = refl;
            max_artifact_bytes = refl;
            downloaded = refl;
            reserved = refl;
            artifacts = refl;
            reserved_artifacts = refl;
          })
          tasks)

finalize_job-Budget :
    (db : Db) (now : ℕ) (j : Job) → Budget 0 0 0 db → Budget 0 0 0 (finalize_job now j db).0
unfolding finalize_job close_job
finalize_job-Budget db now j h =
    if_cases (λ (r : Db × ℕ). Budget 0 0 0 r.0) (exists_where (is_nonterminal j.id) drained.tasks) _
      _ (λ _. kept)
      (λ _.
        Budget-jobs (job_named j.id) _
          (λ j. record {
            id = refl;
            max_bytes = refl;
            max_artifact_bytes = refl;
            downloaded = refl;
            reserved = refl;
            artifacts = refl;
            reserved_artifacts = refl;
          })
          kept)
  where
    drained : Db
    drained = if leb j.deadline_at now then cancel_expired db now j.id else db

    kept : Budget 0 0 0 drained
    kept =
        if_cases (Budget 0 0 0) (leb j.deadline_at now) _ db
          (λ _. cancel_expired-Budget db now j.id h) (λ _. h)

finalize_rows-Budget :
    (now : ℕ) (rows : List Job) (db : Db) (n : ℕ)
    → Budget 0 0 0 db
    → Budget 0 0 0 (finalize_rows now rows db n).0
unfolding finalize_rows
finalize_rows-Budget now [] db n h = h
finalize_rows-Budget now (j ∷ rest) db n h =
    finalize_rows-Budget now rest (finalize_job now j db).0 (n + (finalize_job now j db).1)
      (finalize_job-Budget db now j h)

pub finalize_jobs-Budget :
    (db : Db) (now : ℕ) → Budget 0 0 0 db → Budget 0 0 0 (finalize_jobs db now).0
unfolding finalize_jobs
finalize_jobs-Budget db now h =
    finalize_rows-Budget now (select_where (λ j. is_open j.state) db.jobs) db 0 h
