-- ===== src/History/Exclusive.antt =====
-- The leases of the queue after any history of transactions.
use crawltrove.Base.{
  ℕ, ◌≡◌, refl, sym, ap, ◌∙◌, true, List, [], ◌∷◌, inl, inr, Any, Row, All-Row, Distinct,
  Distinct-Row,
}
use crawltrove.Queue.States.{is_leased}
use crawltrove.Queue.Rows.{Task, OriginLease, Db}
use crawltrove.Queue.Discover.{UrlTools}
use crawltrove.Queue.Finish.{complete_task, retry_task, fail_task, block_robots}
use crawltrove.Queue.Lease.{heartbeat, reserve_browser_navigation, reap_expired_leases}
use crawltrove.Queue.Jobs.{submit_job, request_cancel}
use crawltrove.Queue.Attempts.{reserve_acquisition_attempt, finish_acquisition_attempt}
use crawltrove.Queue.Exclusive.{Exclusive, IsExclusive, IsLeaseFor}
use crawltrove.Queue.Exclusive.Ends.{
  retry_task-Exclusive, fail_task-Exclusive, block_robots-Exclusive,
}
use crawltrove.Queue.Exclusive.Works.{complete_task-Exclusive}
use crawltrove.Queue.Exclusive.Lease.{
  heartbeat-Exclusive, reserve_browser_navigation-Exclusive, reap_expired_leases-Exclusive,
}
use crawltrove.Queue.Exclusive.Jobs.{
  submit_job-Exclusive, request_cancel-Exclusive, finalize_jobs-Exclusive,
}
use crawltrove.Queue.Exclusive.Retry.{retry_failures-Exclusive}
use crawltrove.Queue.Exclusive.Spending.{
  reserve_acquisition_attempt-Exclusive, finish_acquisition_attempt-Exclusive,
}
use crawltrove.Queue.Exclusive.Claims.{claim_task-Exclusive, resume_live_session-Exclusive}
use crawltrove.Sessions.Exclusive.{
  wait_for_input_local-Exclusive, close-Exclusive, expire_due-Exclusive,
}
use crawltrove.History.Budget.{after-keeps, Reachable-Budget}
use crawltrove.Queue.RobotsCache.{store_robots}
use crawltrove.Sessions.{move_session, request_resume, touch, close_completed}
use crawltrove.History.{Call, run, Reachable, empty_db, start, next}

module _ (tools : UrlTools) where
  run-Exclusive :
      (db : Db) (now : ℕ) (c : Call)
      → Distinct (λ (t : Task). t.id) db.tasks
      → Exclusive db
      → Exclusive (run tools db now c)
  unfolding request_resume touch close_completed move_session store_robots
  run-Exclusive db now (Call.submit f g k t) ids h =
      after-keeps Exclusive db (submit_job tools db now f g k t) h
        (submit_job-Exclusive tools db now f g k t h)
  run-Exclusive db now (Call.retry_failed s i f u) ids h =
      retry_failures-Exclusive tools u db now s i f h
  run-Exclusive db now (Call.cancel job) ids h =
      after-keeps Exclusive db (request_cancel db now job) h (request_cancel-Exclusive db now job h)
  run-Exclusive db now Call.finalize ids h = finalize_jobs-Exclusive db now h
  run-Exclusive db now (Call.claim w c t a) ids h = claim_task-Exclusive db now w c t a ids h
  run-Exclusive db now (Call.complete i t r x u) ids h =
      after-keeps Exclusive db (complete_task tools u db now i t r x) h
        (complete_task-Exclusive tools u db now i t r x h)
  run-Exclusive db now (Call.retry i t d a m) ids h =
      after-keeps Exclusive db (retry_task db now i t d a m) h
        (retry_task-Exclusive db now i t d a m h)
  run-Exclusive db now (Call.fail i t d m) ids h =
      after-keeps Exclusive db (fail_task db now i t d m) h (fail_task-Exclusive db now i t d m h)
  run-Exclusive db now (Call.block i t c) ids h =
      after-keeps Exclusive db (block_robots db now i t c) h (block_robots-Exclusive db now i t c h)
  run-Exclusive db now (Call.beat i t) ids h =
      after-keeps Exclusive db (heartbeat db now i t) h (heartbeat-Exclusive db now i t h)
  run-Exclusive db now (Call.navigate i t) ids h =
      after-keeps Exclusive db (reserve_browser_navigation db now i t) h
        (reserve_browser_navigation-Exclusive db now i t h)
  run-Exclusive db now Call.reap ids h =
      after-keeps Exclusive db (reap_expired_leases db now) h
        (reap_expired_leases-Exclusive db now h)
  run-Exclusive db now (Call.reserve_attempt i t a r v) ids h =
      after-keeps Exclusive db (reserve_acquisition_attempt db now i t a r v) h
        (reserve_acquisition_attempt-Exclusive db now i t a r v h)
  run-Exclusive db now (Call.finish_attempt a t o v e) ids h =
      after-keeps Exclusive db (finish_acquisition_attempt db now a t o v e) h
        (finish_acquisition_attempt-Exclusive db now a t o v e h)
  run-Exclusive db now (Call.park c b w t s) ids h =
      wait_for_input_local-Exclusive db now c b w t s h
  run-Exclusive db now (Call.ask_resume i) ids h = h
  run-Exclusive db now (Call.connect i) ids h = h
  run-Exclusive db now (Call.resume s w t) ids h = resume_live_session-Exclusive db now s w t ids h
  run-Exclusive db now (Call.finish_session i) ids h = h
  run-Exclusive db now (Call.end_session i r w) ids h = close-Exclusive db now i r w h
  run-Exclusive db now Call.expire ids h = expire_due-Exclusive db now h
  run-Exclusive db now (Call.keep_robots o b s) ids h = h

  empty-Exclusive : Exclusive empty_db
  empty-Exclusive = record { origins = tt; held = tt }

  pub Reachable-Exclusive : (db : Db) → Reachable tools db → Exclusive db
  Reachable-Exclusive _ start = empty-Exclusive
  Reachable-Exclusive _ (next db now call h) =
      run-Exclusive db now call (Reachable-Budget tools db h).task_ids (Reachable-Exclusive db h)

-- Two leased tasks on one origin have one lease, so they are one task.
same_lease :
    (tasks : List Task) (leases : List OriginLease) (s t : Task)
    → IsExclusive tasks leases
    → Distinct (λ (x : Task). x.id) tasks
    → Row s tasks
    → Row t tasks
    → s.origin_key ≡ t.origin_key
    → Any (IsLeaseFor s) leases
    → Any (IsLeaseFor t) leases
    → s ≡ t
same_lease tasks leases s t h ids rs rt e a b =
    let (k, (krow, kfor)) = any_row _ leases a in
    let (l, (lrow, lfor)) = any_row _ leases b in
    let same : k ≡ l =
      Distinct-Row (λ (x : OriginLease). x.origin_key) leases k l h.origins krow lrow
        (kfor.origin_key ∙ (e ∙ sym lfor.origin_key)) in
    Distinct-Row (λ (x : Task). x.id) tasks s t ids rs rt
      (sym kfor.task_id ∙ (ap (λ (x : OriginLease). x.task_id) same ∙ lfor.task_id))
  where
    any_row :
        (P : OriginLease → Type 0) (ls : List OriginLease)
        → Any P ls
        → (l : OriginLease) × (Row l ls × P l)
    any_row P [] a = elim a [ ]
    any_row P (l ∷ ls) (inl a) = (l, (inl refl, a))
    any_row P (l ∷ ls) (inr a) = let (k, (r, q)) = any_row P ls a in (k, (inr r, q))

-- In every store that a sequence of transactions leads to from the empty tables, two leased tasks
-- with the same origin are the same row: no two workers hold tasks of one origin at a time.
pub one_lease_per_origin :
    (tools : UrlTools) (db : Db) (s t : Task)
    → Reachable tools db
    → Row s db.tasks
    → Row t db.tasks
    → is_leased s.state ≡ true
    → is_leased t.state ≡ true
    → s.origin_key ≡ t.origin_key
    → s ≡ t
one_lease_per_origin tools db s t h rs rt ls lt e =
    let x = Reachable-Exclusive tools db h in
    same_lease db.tasks db.leases s t x (Reachable-Budget tools db h).task_ids rs rt e
      (All-Row _ s db.tasks rs x.held ls) (All-Row _ t db.tasks rt x.held lt)
