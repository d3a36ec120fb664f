-- ===== src/Queue/Exclusive/Ends.antt =====
-- The leases of the queue under the ends of a task in app/crawl/repository.py.
use crawltrove.Base.{
  ℕ, ◌≡◌, refl, String, Bool, true, false, Option, none, some, List, if_cases, ◌==◌, leb, arith,
  update_where, find_where, count_where,
}
use crawltrove.Queue.States.{
  TaskState, ErrorClass, is_leased, is_permanent_failed, is_cancelled_job, permanent_failed, budget,
  blocked_robots, policy,
}
use crawltrove.Queue.Rows.{Job, Task, OriginLease, Db}
use crawltrove.Queue.Results.{Result, Keeps}
use crawltrove.Queue.Ledger.{job_named}
use crawltrove.Queue.Settle.{
  Fenced, Metadata, fenced_task, is_queued_of, is_lease_of, drain_task, drain_unleased,
  enforce_failure_limit, over_limit, charge_download, actual_bytes, release_lease, finish_attempt,
}
use crawltrove.Queue.Terminal.{
  is_held, end_task, terminalize, close_task, cancel_run, limit_failures, when_active,
}
use crawltrove.Queue.Frame.{when_active-Keeps}
use crawltrove.Queue.Finish.{
  retry_task, fail_task, block_robots, fail_leased, requeue_task, retry_active, reject_over_budget,
}
use crawltrove.Queue.Exclusive.{
  Exclusive, IsExclusive, IsLeaseFor, KeepsLease, Exclusive-tasks, Exclusive-end,
}
use crawltrove.Classify.{FailureDecision}

-- The DELETE of a held task's lease spares the leases of the tasks that its UPDATE does not match.
spares_others :
    (t x : Task) (l : OriginLease) → is_held t x ≡ false → IsLeaseFor x l → is_lease_of t l ≡ false
spares_others t x l e h = ground (arith, e, h.task_id, h.token)

-- An update of a task that ends its lease.
abbrev pub Unleases : (Task → Task) → Type 0
Unleases f = (t : Task) → is_leased (f t).state ≡ false

-- Updates that leave no lease need no lease row.
pub Unleases-KeepsLease : (p : Task → Bool) (f : Task → Task) → Unleases f → KeepsLease p f
Unleases-KeepsLease p f free t e leased = absurd (never (free t) leased)
  where
    never : is_leased (f t).state ≡ false → is_leased (f t).state ≡ true → ⊥
    never a b = cc

pub release_lease-Exclusive :
    (db : Db) (t : Task) (f : Task → Task)
    → Unleases f
    → Exclusive db
    → Exclusive (release_lease (record db { tasks = update_where (is_held t) f db.tasks }) t)
unfolding release_lease
release_lease-Exclusive db t f free h =
    Exclusive-end (is_held t) f (is_lease_of t) (λ x _. free x) (spares_others t) h

pub drain_unleased-Exclusive :
    (db : Db) (now job : ℕ) (reason : String)
    → Exclusive db
    → Exclusive (drain_unleased db now job reason)
unfolding drain_unleased
drain_unleased-Exclusive db now job reason h =
    if_cases Exclusive (count_where (is_queued_of job) db.tasks == 0) _ _ (λ _. drained)
      (λ _. drained)
  where
    drained :
        IsExclusive (update_where (is_queued_of job) (drain_task now reason) db.tasks) db.leases
    drained =
        Exclusive-tasks (is_queued_of job) (drain_task now reason)
          (Unleases-KeepsLease (is_queued_of job) (drain_task now reason)
            (unfold drain_task in λ x. refl))
          h

pub cancel_run-Exclusive :
    (db : Db) (now : ℕ) (o : Option Job) → Exclusive db → Exclusive (cancel_run db now o)
unfolding cancel_run
cancel_run-Exclusive db now none h = h
cancel_run-Exclusive db now (some j) h =
    if_cases Exclusive (is_cancelled_job j.state) _ db (λ _. h) (λ _. h)

limit_failures-Exclusive :
    (db : Db) (now : ℕ) (t : Task) (state : TaskState)
    → Exclusive db
    → Exclusive (limit_failures db now t state)
unfolding limit_failures enforce_failure_limit
limit_failures-Exclusive db now t state h =
    if_cases Exclusive (is_permanent_failed state) _ db
      (λ _.
        if_cases Exclusive (over_limit (find_where (job_named t.job_id) db.jobs)) _ db
          (λ _. drain_unleased-Exclusive db now t.job_id "max_failures_exceeded" h) (λ _. h))
      (λ _. h)

end_task-Unleases :
    (now : ℕ) (state : TaskState) (cls : Option ErrorClass) (code : Option String)
    → is_leased state ≡ false
    → Unleases (end_task now state cls code)
unfolding end_task
end_task-Unleases now state cls code h x = h

-- Ending a task deletes its lease with it.
pub terminalize-Exclusive :
    (db : Db) (now : ℕ) (t : Task) (state : TaskState) (cls : Option ErrorClass)
    (code : Option String)
    → is_leased state ≡ false
    → Exclusive db
    → Exclusive (terminalize db now t state cls code)
unfolding terminalize close_task finish_attempt
terminalize-Exclusive db now t state cls code free h = limit_failures-Exclusive _ now t state (
    cancel_run-Exclusive _ now _ (
      release_lease-Exclusive db t (end_task now state cls code)
        (end_task-Unleases now state cls code free) h))

charge_download-Exclusive :
    (db : Db) (t : Task) (n : ℕ) → Exclusive db → Exclusive (charge_download db t n)
unfolding charge_download
charge_download-Exclusive db t n h = if_cases Exclusive (n == 0) db _ (λ _. h) (λ _. h)

fail_leased-Exclusive :
    (db : Db) (now : ℕ) (t : Task) (d : FailureDecision) (m : Metadata)
    → Exclusive db
    → Exclusive (fail_leased db now t d m)
unfolding fail_leased finish_attempt
fail_leased-Exclusive db now t d m h = charge_download-Exclusive _ t (actual_bytes t m) (
    terminalize-Exclusive db now t permanent_failed (some d.error_class) (some d.error_code) refl h)

pub requeue_task-Unleases :
    (now available : ℕ) (cls : ErrorClass) (code : String)
    → Unleases (requeue_task now available cls code)
unfolding requeue_task
requeue_task-Unleases now available cls code x = refl

retry_active-Exclusive :
    (db : Db) (now : ℕ) (d : FailureDecision) (available : ℕ) (m : Metadata) (f : Fenced)
    → Exclusive db
    → Keeps Exclusive (retry_active db now d available m f)
unfolding retry_active finish_attempt
retry_active-Exclusive db now d available m f h =
    if_cases (Keeps Exclusive) (leb f.task.max_attempts f.task.attempt_count) _ _
      (λ _. fail_leased-Exclusive db now f.task d m h)
      (λ _. charge_download-Exclusive _ f.task (actual_bytes f.task m) (
        release_lease-Exclusive db f.task _
          (requeue_task-Unleases now available d.error_class d.error_code) h))

abbrev pub ExclusiveOn : List Job → List Task → List OriginLease → Type 0
ExclusiveOn jobs tasks leases = IsExclusive tasks leases

-- A fenced transaction keeps the leases exclusive if its action does.
pub fenced-Exclusive :
    {A : Type 0} (db : Db) (now : ℕ) (o : Option Fenced) (lost : A) (act : Fenced → Result (Db × A))
    → Exclusive db
    → ((f : Fenced) → Keeps Exclusive (act f))
    → Keeps Exclusive (when_active db now o lost act)
fenced-Exclusive db now o lost act h kept =
    when_active-Keeps ExclusiveOn db now o lost act h
      (λ f state cls code e free. terminalize-Exclusive db now f.task state cls code free h)
      (λ f e. kept f)

pub retry_task-Exclusive :
    (db : Db) (now id token : ℕ) (d : FailureDecision) (available : ℕ) (m : Metadata)
    → Exclusive db
    → Keeps Exclusive (retry_task db now id token d available m)
unfolding retry_task
retry_task-Exclusive db now id token d available m h =
    fenced-Exclusive db now (fenced_task db id token) false (retry_active db now d available m) h
      (λ f. retry_active-Exclusive db now d available m f h)

pub fail_task-Exclusive :
    (db : Db) (now id token : ℕ) (d : FailureDecision) (m : Metadata)
    → Exclusive db
    → Keeps Exclusive (fail_task db now id token d m)
unfolding fail_task
fail_task-Exclusive db now id token d m h =
    fenced-Exclusive db now (fenced_task db id token) false _ h
      (λ f. fail_leased-Exclusive db now f.task d m h)

pub block_robots-Exclusive :
    (db : Db) (now id token : ℕ) (code : String)
    → Exclusive db
    → Keeps Exclusive (block_robots db now id token code)
unfolding block_robots
block_robots-Exclusive db now id token code h =
    fenced-Exclusive db now (fenced_task db id token) false _ h
      (λ f. terminalize-Exclusive db now f.task blocked_robots (some policy) (some code) refl h)

pub reject_over_budget-Exclusive :
    (db : Db) (now : ℕ) (t : Task) (m : Metadata) (reason : String)
    → Exclusive db
    → Exclusive (reject_over_budget db now t m reason)
unfolding reject_over_budget finish_attempt
reject_over_budget-Exclusive db now t m reason h = drain_unleased-Exclusive _ now t.job_id reason (
    charge_download-Exclusive _ t (actual_bytes t m)
      (terminalize-Exclusive db now t permanent_failed (some budget) (some reason) refl h))
