-- ===== src/History.antt =====
-- The transactions of app/crawl/repository.py and app/acquisition/sessions.py as steps of one
-- store, one transaction after another. `reconcile_job`, which an operator calls to recount a job
-- by hand, is not a step. The two transactions of `retry_failures` are one step.
pub mod Budget
pub mod Exclusive
pub mod Recount
use crawltrove.Base.{ℕ, String, Bool, Option, List, []}
use crawltrove.Queue.Rows.{Db, CrawlConfig}
use crawltrove.Queue.Results.{after}
use crawltrove.Queue.Meters.{Reported}
use crawltrove.Queue.Settle.{Metadata}
use crawltrove.Queue.Claim.{ClaimedTask, claim_task}
use crawltrove.Queue.Discover.{UrlTools}
use crawltrove.Queue.Finish.{TaskResult, complete_task, retry_task, fail_task, block_robots}
use crawltrove.Queue.Lease.{
  heartbeat, reserve_browser_navigation, reap_expired_leases, resume_live_session,
}
use crawltrove.Queue.Jobs.{Fresh, submit_job, request_cancel, finalize_jobs}
use crawltrove.Queue.Retry.{retry_failures}
use crawltrove.Queue.RobotsCache.{store_robots}
use crawltrove.Queue.Attempts.{reserve_acquisition_attempt, finish_acquisition_attempt}
use crawltrove.Sessions.{
  CloseReason, wait_for_input_local, request_resume, touch, close_completed, close, expire_due,
}
use crawltrove.Classify.{FailureDecision}

-- the tables before the first job
abbrev pub empty_db : Db
empty_db = record {
  jobs = [];
  tasks = [];
  origins = [];
  leases = [];
  attempts = [];
  usage = [];
  results = [];
  events = [];
  runs = [];
  sessions = [];
}

-- A call of one of the transactions, with what it draws at random: the tasks that a completion or a
-- retry inserts have ids of their own, which only this call draws.
pub data Call : Type 0 where
  submit : Fresh → CrawlConfig → Option String → String → Call
  retry_failed : ℕ → List ℕ → Fresh → (ℕ → ℕ) → Call
  cancel : ℕ → Call
  finalize : Call
  claim : String → List String → ℕ → ℕ → Call
  complete : ℕ → ℕ → TaskResult → ℕ → (ℕ → ℕ) → Call
  retry : ℕ → ℕ → FailureDecision → ℕ → Metadata → Call
  fail : ℕ → ℕ → FailureDecision → Metadata → Call
  block : ℕ → ℕ → String → Call
  beat : ℕ → ℕ → Call
  navigate : ℕ → ℕ → Call
  reap : Call
  reserve_attempt : ℕ → ℕ → ℕ → String → List Reported → Call
  finish_attempt : ℕ → ℕ → String → List Reported → Bool → Call
  park : ClaimedTask → String → String → ℕ → ℕ → Call
  ask_resume : ℕ → Call
  connect : ℕ → Call
  resume : ℕ → String → ℕ → Call
  finish_session : ℕ → Call
  end_session : ℕ → CloseReason → Option String → Call
  expire : Call
  keep_robots : String → String → Option ℕ → Call

module _ (tools : UrlTools) where
  -- The store after a call that starts at a time.
  abbrev pub run : Db → ℕ → Call → Db
  run db now (Call.submit fresh config key trigger) =
      after db (submit_job tools db now fresh config key trigger)
  run db now (Call.retry_failed source ids fresh uuids) =
      (retry_failures tools uuids db now source ids fresh).0
  run db now (Call.cancel job) = after db (request_cancel db now job)
  run db now Call.finalize = (finalize_jobs db now).0
  run db now (Call.claim worker capabilities token attempt) =
      (claim_task db now worker capabilities token attempt).0
  run db now (Call.complete id token result row uuids) =
      after db (complete_task tools uuids db now id token result row)
  run db now (Call.retry id token decision available m) =
      after db (retry_task db now id token decision available m)
  run db now (Call.fail id token decision m) = after db (fail_task db now id token decision m)
  run db now (Call.block id token code) = after db (block_robots db now id token code)
  run db now (Call.beat id token) = after db (heartbeat db now id token)
  run db now (Call.navigate id token) = after db (reserve_browser_navigation db now id token)
  run db now Call.reap = after db (reap_expired_leases db now)
  run db now (Call.reserve_attempt id token attempt route values) =
      after db (reserve_acquisition_attempt db now id token attempt route values)
  run db now (Call.finish_attempt attempt token outcome values estimated) =
      after db (finish_acquisition_attempt db now attempt token outcome values estimated)
  run db now (Call.park task backend worker ttl session) =
      (wait_for_input_local db now task backend worker ttl session).0
  run db now (Call.ask_resume id) = (request_resume db now id).0
  run db now (Call.connect id) = (touch db now id).0
  run db now (Call.resume session worker token) =
      (resume_live_session db now session worker token).0
  run db now (Call.finish_session id) = (close_completed db now id).0
  run db now (Call.end_session id reason worker) = (close db now id reason worker).0
  run db now Call.expire = (expire_due db now).0
  run db now (Call.keep_robots origin body status) = store_robots db now origin body status

  -- The stores that some sequence of transactions leads to.
  pub data Reachable : Db → Type 0 where
    start : Reachable empty_db
    next : (db : Db) (now : ℕ) (call : Call) → Reachable db → Reachable (run db now call)
