-- ===== src/History/Budget.antt =====
-- The byte budgets of the queue after any history of transactions.
use crawltrove.Base.{ℕ, ◌+◌, ◌≤◌, ◌≡◌, List, All, All-weaken, arith}
use crawltrove.Queue.Rows.{Job, Task, Db}
use crawltrove.Queue.Results.{Result, ok, err, after, Keeps}
use crawltrove.Queue.Discover.{UrlTools}
use crawltrove.Queue.Finish.{complete_task, retry_task, fail_task, block_robots}
use crawltrove.Queue.Lease.{heartbeat, reserve_browser_navigation, reap_expired_leases}
use crawltrove.Queue.Jobs.{submit_job, request_cancel}
use crawltrove.Queue.Attempts.{reserve_acquisition_attempt, finish_acquisition_attempt}
use crawltrove.Queue.Budget.{Budget, bytes_in, artifacts_in}
use crawltrove.Queue.Budget.Inserts.{complete_task-Budget}
use crawltrove.Queue.Budget.Finishes.{retry_task-Budget, fail_task-Budget, block_robots-Budget}
use crawltrove.Queue.Budget.Claimed.{claim_task-Budget}
use crawltrove.Queue.Budget.Leased.{
  resume_live_session-Budget, heartbeat-Budget, reserve_browser_navigation-Budget,
  reap_expired_leases-Budget,
}
use crawltrove.Queue.Budget.Submit.{submit_job-Budget}
use crawltrove.Queue.Budget.Retry.{retry_failures-Budget}
use crawltrove.Queue.Budget.Jobs.{request_cancel-Budget, finalize_jobs-Budget}
use crawltrove.Queue.Budget.Ledger.{
  reserve_acquisition_attempt-Budget, finish_acquisition_attempt-Budget,
}
use crawltrove.Sessions.Budget.{wait_for_input_local-Budget, close-Budget, expire_due-Budget}
use crawltrove.Queue.RobotsCache.{store_robots}
use crawltrove.Sessions.{move_session, request_resume, touch, close_completed}
use crawltrove.History.{Call, run, Reachable, empty_db, start, next}

pub after-keeps :
    {A : Type 0} (P : Db → Type 0) (db : Db) (r : Result (Db × A))
    → P db
    → Keeps P r
    → P (after db r)
after-keeps P db (ok (d, a)) h k = k
after-keeps P db (err e) h k = h

module _ (tools : UrlTools) where
  run-Budget : (db : Db) (now : ℕ) (c : Call) → Budget 0 0 0 db → Budget 0 0 0 (run tools db now c)
  unfolding request_resume touch close_completed move_session store_robots
  run-Budget db now (Call.submit f g k t) h =
      after-keeps (Budget 0 0 0) db (submit_job tools db now f g k t) h
        (submit_job-Budget tools db now f g k t h)
  run-Budget db now (Call.retry_failed s i f u) h = retry_failures-Budget tools u db now s i f h
  run-Budget db now (Call.cancel job) h =
      after-keeps (Budget 0 0 0) db (request_cancel db now job) h
        (request_cancel-Budget db now job h)
  run-Budget db now Call.finalize h = finalize_jobs-Budget db now h
  run-Budget db now (Call.claim w c t a) h = claim_task-Budget db now w c t a h
  run-Budget db now (Call.complete i t r x u) h =
      after-keeps (Budget 0 0 0) db (complete_task tools u db now i t r x) h
        (complete_task-Budget tools u db now i t r x h)
  run-Budget db now (Call.retry i t d a m) h =
      after-keeps (Budget 0 0 0) db (retry_task db now i t d a m) h
        (retry_task-Budget db now i t d a m h)
  run-Budget db now (Call.fail i t d m) h =
      after-keeps (Budget 0 0 0) db (fail_task db now i t d m) h (fail_task-Budget db now i t d m h)
  run-Budget db now (Call.block i t c) h =
      after-keeps (Budget 0 0 0) db (block_robots db now i t c) h
        (block_robots-Budget db now i t c h)
  run-Budget db now (Call.beat i t) h =
      after-keeps (Budget 0 0 0) db (heartbeat db now i t) h (heartbeat-Budget db now i t h)
  run-Budget db now (Call.navigate i t) h =
      after-keeps (Budget 0 0 0) db (reserve_browser_navigation db now i t) h
        (reserve_browser_navigation-Budget db now i t h)
  run-Budget db now Call.reap h =
      after-keeps (Budget 0 0 0) db (reap_expired_leases db now) h
        (reap_expired_leases-Budget db now h)
  run-Budget db now (Call.reserve_attempt i t a r v) h =
      after-keeps (Budget 0 0 0) db (reserve_acquisition_attempt db now i t a r v) h
        (reserve_acquisition_attempt-Budget db now i t a r v h)
  run-Budget db now (Call.finish_attempt a t o v e) h =
      after-keeps (Budget 0 0 0) db (finish_acquisition_attempt db now a t o v e) h
        (finish_acquisition_attempt-Budget db now a t o v e h)
  run-Budget db now (Call.park c b w t s) h = wait_for_input_local-Budget db now c b w t s h
  run-Budget db now (Call.ask_resume i) h = h
  run-Budget db now (Call.connect i) h = h
  run-Budget db now (Call.resume s w t) h = resume_live_session-Budget db now s w t h
  run-Budget db now (Call.finish_session i) h = h
  run-Budget db now (Call.end_session i r w) h = close-Budget db now i r w h
  run-Budget db now Call.expire h = expire_due-Budget db now h
  run-Budget db now (Call.keep_robots o b s) h = h

  empty-Budget : Budget 0 0 0 empty_db
  empty-Budget = record { job_ids = tt; task_ids = tt; idle = tt; owned = tt; all_fit = tt }

  pub Reachable-Budget : (db : Db) → Reachable tools db → Budget 0 0 0 db
  Reachable-Budget _ start = empty-Budget
  Reachable-Budget _ (next db now call h) = run-Budget db now call (Reachable-Budget db h)

-- What a job spent and holds reserved, against the columns of its limits.
pub record WithinBudget (tasks : List Task) (j : Job) : Type 0 where
  pub reserved : j.reserved_bytes ≡ bytes_in tasks j.id
  pub reserved_artifacts : j.reserved_artifact_bytes ≡ artifacts_in tasks j.id
  bytes : j.downloaded_bytes + j.reserved_bytes ≤ j.max_bytes
  artifacts : j.artifact_bytes + j.reserved_artifact_bytes ≤ j.max_artifact_bytes

-- In every store that a sequence of transactions leads to from the empty tables, every job's cached
-- reservations are the sums of the reservations of its tasks, and what the job downloaded or stored
-- together with what it has reserved is at most its limit, for the bytes and for the artifact bytes.
pub Reachable-WithinBudget :
    (tools : UrlTools) (db : Db) → Reachable tools db → All (WithinBudget db.tasks) db.jobs
Reachable-WithinBudget tools db h =
    All-weaken db.jobs
      (λ j k. record {
        reserved = k.reserved;
        reserved_artifacts = k.reserved_artifacts;
        bytes = ground (arith, k.fits);
        artifacts = ground (arith, k.artifacts_fit);
      })
      (Reachable-Budget tools db h).all_fit
