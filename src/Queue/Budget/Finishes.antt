-- ===== src/Queue/Budget/Finishes.antt =====
-- The budget invariant under `complete_task`, `retry_task`, `fail_task` and `block_robots` of
-- app/crawl/repository.py.
use crawltrove.Base.{ℕ, ◌≤◌, ◌≡◌, refl, String, false, some, List, if_cases, leb, arith}
use crawltrove.Queue.States.{ErrorClass, permanent_failed, blocked_robots, policy, budget}
use crawltrove.Queue.Rows.{Job, Task, OriginLease, Db}
use crawltrove.Queue.Results.{Result, Keeps}
use crawltrove.Queue.Settle.{
  Fenced, Metadata, fenced_task, release_lease, actual_bytes, finish_attempt,
}
use crawltrove.Queue.Terminal.{is_held, when_active}
use crawltrove.Queue.Finish.{
  fail_leased, retry_active, requeue_task, retry_task, fail_task, block_robots, reject_over_budget,
}
use crawltrove.Queue.Fence.{IsHeld, fenced_task-IsFenced, IsFenced-IsHeld}
use crawltrove.Queue.Frame.{when_active-Keeps}
use crawltrove.Queue.Budget.{Budget, IsBudgeted}
use crawltrove.Queue.Budget.Leases.{Frees, Budget-settle}
use crawltrove.Queue.Budget.Ends.{
  held-Picks, terminalize-Budget, charge_download-Budget, Budget-close, drain_unleased-Budget,
}
use crawltrove.Classify.{FailureDecision}

pub actual-le-reserved : (t : Task) (m : Metadata) → actual_bytes t m ≤ t.byte_budget_reserved
unfolding actual_bytes
actual-le-reserved t m = omega arith

pub fenced-IsHeld :
    (db : Db) (id token : ℕ) (f : Fenced)
    → fenced_task db id token ≡ some f
    → IsHeld db.tasks f.task
fenced-IsHeld db id token f h = IsFenced-IsHeld db id token f (fenced_task-IsFenced db id token f h)

abbrev pub BudgetOn : List Job → List Task → List OriginLease → Type 0
BudgetOn jobs tasks leases = IsBudgeted 0 0 0 jobs tasks

-- A fenced transaction keeps the budgets if its action does.
pub fenced-Budget :
    {A : Type 0} (db : Db) (now id token : ℕ) (lost : A) (act : Fenced → Result (Db × A))
    → Budget 0 0 0 db
    → ((f : Fenced) → IsHeld db.tasks f.task → Keeps (Budget 0 0 0) (act f))
    → Keeps (Budget 0 0 0) (when_active db now (fenced_task db id token) lost act)
fenced-Budget db now id token lost act h kept =
    when_active-Keeps BudgetOn db now (fenced_task db id token) lost act h
      (λ f state cls code e _.
        Budget-close 0
          (terminalize-Budget db now f.task state cls code (fenced-IsHeld db id token f e) h))
      (λ f e. kept f (fenced-IsHeld db id token f e))

fail_leased-Budget :
    (db : Db) (now : ℕ) (t : Task) (d : FailureDecision) (m : Metadata)
    → IsHeld db.tasks t
    → Budget 0 0 0 db
    → Budget 0 0 0 (fail_leased db now t d m)
unfolding fail_leased finish_attempt
fail_leased-Budget db now t d m held h =
    charge_download-Budget _ t (actual_bytes t m) (actual-le-reserved t m)
      (terminalize-Budget db now t permanent_failed (some d.error_class) (some d.error_code) held h)

pub requeue_task-Frees :
    (now available : ℕ) (cls : ErrorClass) (code : String)
    → Frees (requeue_task now available cls code)
unfolding requeue_task
requeue_task-Frees now available cls code = record {
  keys = λ t. (refl, refl);
  bytes = λ x. refl;
  artifacts = λ x. refl;
}

retry_active-Budget :
    (db : Db) (now : ℕ) (d : FailureDecision) (available : ℕ) (m : Metadata) (f : Fenced)
    → IsHeld db.tasks f.task
    → Budget 0 0 0 db
    → Keeps (Budget 0 0 0) (retry_active db now d available m f)
unfolding retry_active release_lease finish_attempt
retry_active-Budget db now d available m f held h =
    if_cases (Keeps (Budget 0 0 0)) (leb f.task.max_attempts f.task.attempt_count) _ _
      (λ _. fail_leased-Budget db now f.task d m held h)
      (λ _. charge_download-Budget _ f.task (actual_bytes f.task m) (actual-le-reserved f.task m) (
        Budget-settle f.task (is_held f.task) _ (held-Picks f.task held)
          (requeue_task-Frees now available d.error_class d.error_code) h))

-- Retrying a task keeps the budgets of every job.
pub retry_task-Budget :
    (db : Db) (now id token : ℕ) (d : FailureDecision) (available : ℕ) (m : Metadata)
    → Budget 0 0 0 db
    → Keeps (Budget 0 0 0) (retry_task db now id token d available m)
unfolding retry_task
retry_task-Budget db now id token d available m h =
    fenced-Budget db now id token false (retry_active db now d available m) h
      (λ f held. retry_active-Budget db now d available m f held h)

pub fail_task-Budget :
    (db : Db) (now id token : ℕ) (d : FailureDecision) (m : Metadata)
    → Budget 0 0 0 db
    → Keeps (Budget 0 0 0) (fail_task db now id token d m)
unfolding fail_task
fail_task-Budget db now id token d m h =
    fenced-Budget db now id token false _ h (λ f held. fail_leased-Budget db now f.task d m held h)

pub block_robots-Budget :
    (db : Db) (now id token : ℕ) (code : String)
    → Budget 0 0 0 db
    → Keeps (Budget 0 0 0) (block_robots db now id token code)
unfolding block_robots
block_robots-Budget db now id token code h = fenced-Budget db now id token false _ h (λ f held.
    Budget-close 0
      (terminalize-Budget db now f.task blocked_robots (some policy) (some code) held h))

pub reject_over_budget-Budget :
    (db : Db) (now : ℕ) (t : Task) (m : Metadata) (reason : String)
    → IsHeld db.tasks t
    → Budget 0 0 0 db
    → Budget 0 0 0 (reject_over_budget db now t m reason)
unfolding reject_over_budget finish_attempt
reject_over_budget-Budget db now t m reason held h = drain_unleased-Budget _ now t.job_id reason (
    charge_download-Budget _ t (actual_bytes t m) (actual-le-reserved t m)
      (terminalize-Budget db now t permanent_failed (some budget) (some reason) held h))
