-- ===== src/Queue/Attempts/Kept.antt =====
-- What ends a lease in app/crawl/repository.py keeps the ledger of native meters.
use crawltrove.Base.{
  ℕ, ◌≡◌, refl, sym, ◌∙◌, subst, String, Option, none, some, if_cases, ◌==◌, is_some, find_where,
  count_where,
}
use crawltrove.Queue.States.{
  TaskState, ErrorClass, is_cancelled_job, is_permanent_failed, permanent_failed, policy,
}
use crawltrove.Queue.Rows.{Job, Task, Db}
use crawltrove.Queue.Results.{Result, Keeps, Yields-bind}
use crawltrove.Queue.Ledger.{job_named, reconcile_abandoned}
use crawltrove.Queue.Ledger.Limits.{IsLedger, HasLedger, reconcile_abandoned-HasLedger}
use crawltrove.Queue.Settle.{
  Fenced, deadline_expired, drain_unleased, is_queued_of, enforce_failure_limit, over_limit,
  release_lease, finish_attempt,
}
use crawltrove.Queue.Terminal.{
  terminalize, close_task, cancel_run, limit_failures, reject, reject_inactive_lease, when_active,
}

drain_unleased-usage :
    (db : Db) (now job : ℕ) (reason : String) → (drain_unleased db now job reason).usage ≡ db.usage
unfolding drain_unleased
drain_unleased-usage db now job reason =
    if_cases (λ (d : Db). d.usage ≡ db.usage) (count_where (is_queued_of job) db.tasks == 0) _ _
      (λ _. refl) (λ _. refl)

terminalize-usage :
    (db : Db) (now : ℕ) (t : Task) (state : TaskState) (cls : Option ErrorClass)
    (code : Option String)
    → (terminalize db now t state cls code).usage ≡ db.usage
unfolding terminalize close_task release_lease finish_attempt
terminalize-usage db now t state cls code =
    limited (cancel_run (close_task db now t state cls code) now _)
    ∙ stopped (close_task db now t state cls code)
        (find_where (job_named t.job_id) (close_task db now t state cls code).jobs)
  where
    stopped : (d : Db) (o : Option Job) → (cancel_run d now o).usage ≡ d.usage
    stopped d none = unfold cancel_run in refl
    stopped d (some j) =
        unfold cancel_run in
        if_cases (λ (e : Db). e.usage ≡ d.usage) (is_cancelled_job j.state) _ d (λ _. refl)
          (λ _. refl)

    limited : (d : Db) → (limit_failures d now t state).usage ≡ d.usage
    limited d =
        unfold limit_failures in
        if_cases (λ (e : Db). e.usage ≡ d.usage) (is_permanent_failed state) _ d
          (λ _.
            unfold enforce_failure_limit in
            if_cases (λ (e : Db). e.usage ≡ d.usage)
              (over_limit (find_where (job_named t.job_id) d.jobs)) _ d
              (λ _. drain_unleased-usage d now t.job_id "max_failures_exceeded") (λ _. refl))
          (λ _. refl)

reject-HasLedger :
    (db : Db) (now : ℕ) (f : Fenced) (state : TaskState) (cls : Option ErrorClass)
    (code : Option String)
    → HasLedger db
    → Keeps HasLedger (reject db now f state cls code)
unfolding reject
reject-HasLedger db now f state cls code h =
    Yields-bind (λ r. HasLedger r.0) (λ r. HasLedger r.0)
      (reconcile_abandoned (terminalize db now f.task state cls code) now (some f.task.id)) _
      (reconcile_abandoned-HasLedger (terminalize db now f.task state cls code) now (some f.task.id)
        (subst IsLedger (sym (terminalize-usage db now f.task state cls code)) h))
      (λ r k. k)

reject_inactive_lease-HasLedger :
    (db : Db) (now : ℕ) (f : Fenced)
    → HasLedger db
    → Keeps HasLedger (reject_inactive_lease db now f)
unfolding reject_inactive_lease
reject_inactive_lease-HasLedger db now f h =
    if_cases (Keeps HasLedger) (is_some f.job.cancel_requested_at) _ _
      (λ _. reject-HasLedger db now f TaskState.cancelled none none h)
      (λ _.
        if_cases (Keeps HasLedger) (deadline_expired now f) _ _
          (λ _.
            reject-HasLedger db now f permanent_failed (some policy) (some "deadline_exceeded") h)
          (λ _. h))

pub when_active-HasLedger :
    {A : Type 0} (db : Db) (now : ℕ) (o : Option Fenced) (lost : A) (act : Fenced → Result (Db × A))
    → HasLedger db
    → ((f : Fenced) → Keeps HasLedger (act f))
    → Keeps HasLedger (when_active db now o lost act)
when_active-HasLedger db now none lost act h kept = h
when_active-HasLedger db now (some f) lost act h kept =
    Yields-bind (λ r. HasLedger r.0) (λ r. HasLedger r.0) (reject_inactive_lease db now f) _
      (reject_inactive_lease-HasLedger db now f h)
      (λ r k. if_cases (Keeps HasLedger) r.1 _ (act f) (λ _. k) (λ _. kept f))
