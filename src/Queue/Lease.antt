-- ===== src/Queue/Lease.antt =====
-- `heartbeat`, `reserve_browser_navigation`, `reap_expired_leases` and `resume_live_session` of
-- app/crawl/repository.py.
use crawltrove.Base.{
  ℕ, ◌+◌, String, Bool, true, false, Option, none, some, List, [], ◌∷◌, ◌++◌, ◌&&◌, ◌||◌, not,
  if◌then◌else◌, ◌==◌, ltb, leb, is_some, update_where, find_where, exists_where, select_where,
}
use crawltrove.Queue.States.{
  permanent_failed, transport, is_leased, waiting_input, TaskState, is_resuming,
}
use crawltrove.Queue.Rows.{Job, Task, OriginLease, LiveSession, EventMetadata, Db}
use crawltrove.Queue.Results.{Result, ok, ◌>>=◌}
use crawltrove.Queue.Ledger.{job_named, task_named, reconcile_abandoned}
use crawltrove.Queue.Settle.{
  Fenced, no_metadata, fenced_task, log_event, release_lease, finish_attempt, with_job,
}
use crawltrove.Queue.Terminal.{is_held, terminalize, reject_inactive_lease, when_active}
use crawltrove.Queue.Claim.{
  lease_ms, ClaimedTask, is_live, lease_on, byte_allowance, artifact_allowance, reserve_budget,
  lease_task, origin_lease,
}
use crawltrove.Queue.Finish.{requeue_task}

unfoldable pub extend_task : ℕ → Task → Task
extend_task now t = record t { lease_expires_at = some (now + lease_ms); updated_at = now }

abbrev pub is_lease_row : ℕ → ℕ → OriginLease → Bool
is_lease_row id token l = l.task_id == id && l.lease_token == token

unfoldable pub extend_lease : ℕ → OriginLease → OriginLease
extend_lease now l = record l { expires_at = now + lease_ms }

-- `heartbeat`
unfoldable pub heartbeat : Db → ℕ → ℕ → ℕ → Result (Db × Bool)
unfolding extend_task extend_lease
heartbeat db now id token = when_active db now (fenced_task db id token) false λ f. ok (
  record db {
    tasks = update_where (is_held f.task) (extend_task now) db.tasks;
    leases = update_where (is_lease_row id token) (extend_lease now) db.leases;
  },
  exists_where (is_lease_row id token) db.leases,
)

abbrev pub has_browser_budget : ℕ → Job → Bool
has_browser_budget id j = j.id == id && ltb j.browser_page_count j.config.max_browser_pages

unfoldable pub count_browser : Job → Job
count_browser j = record j { browser_page_count = j.browser_page_count + 1 }

-- `reserve_browser_navigation`
unfoldable pub reserve_browser_navigation : Db → ℕ → ℕ → ℕ → Result (Db × Bool)
unfolding count_browser
reserve_browser_navigation db now id token = when_active db now (fenced_task db id token) false λ f.
    ok (
      record db { jobs = update_where (has_browser_budget f.task.job_id) count_browser db.jobs },
      exists_where (has_browser_budget f.task.job_id) db.jobs,
    )

abbrev pub lease_is_over : ℕ → Task → Bool
lease_is_over now t = is_leased t.state && over t.lease_expires_at
  where
    over : Option ℕ → Bool
    over none = false
    over (some e) = leb e now

-- A lease that ran out ends its task or puts it back into the queue.
unfoldable pub expire_lease : Db → ℕ → Task → Db
unfolding terminalize requeue_task release_lease finish_attempt
expire_lease db now t =
    if leb t.max_attempts t.attempt_count
    then terminalize db now t permanent_failed (some transport) (some "lease_expired")
    else (let queued = record db {
      tasks = update_where (is_held t) (requeue_task now now transport "lease_expired") db.tasks;
    } in
        let finished =
          finish_attempt (release_lease queued t) now t "retry"
            (record no_metadata { error_code = some "lease_expired" }) 0 0 in
        log_event finished t.job_id (some t.id) "task_retry_wait"
          (EventMetadata.error_code (some "lease_expired")))

unfoldable pub reap_lease : ℕ → Fenced → Db → Result Db
unfolding expire_lease
reap_lease now f db = do
  r ← reject_inactive_lease db now f
  ok (if r.1 then r.0 else expire_lease db now f.task)

abbrev pub fenced_by : Db → ℕ → Option ℕ → Option Fenced
fenced_by db id none = none
fenced_by db id (some token) = fenced_task db id token

-- One row of the loop of `reap_expired_leases`, and how many rows it counts.
unfoldable pub reap_row : ℕ → Task → Db → Result (Db × ℕ)
unfolding reap_lease fenced_task
reap_row now t db = elim (fenced_by db t.id t.lease_token) [
  | none ↦ ok (db, 0)
  | some f ↦ do db' ← reap_lease now f db; ok (db', 1)
]

unfoldable pub reap_rows : ℕ → List Task → Db → ℕ → Result (Db × ℕ)
unfolding reap_row
reap_rows now [] db n = ok (db, n)
reap_rows now (t ∷ rest) db n = do r ← reap_row now t db; reap_rows now rest r.0 (n + r.1)

-- `reap_expired_leases`
unfoldable pub reap_expired_leases : Db → ℕ → Result (Db × ℕ)
unfolding reap_rows
reap_expired_leases db now = do
  r ← reconcile_abandoned db now none
  reap_rows now (select_where (lease_is_over now) r.0.tasks) r.0 0

abbrev pub is_waiting : TaskState → Bool
is_waiting waiting_input = true
is_waiting _ = false

abbrev pub is_resumable : ℕ → ℕ → LiveSession → Bool
is_resumable now id s =
    s.id == id && not (is_some s.worker_id) && is_resuming s.state && ltb now s.expires_at

-- t.state = 'waiting_input' AND j.cancel_requested_at IS NULL AND j.deadline_at > now()
abbrev pub still_waiting : ℕ → Option Fenced → Option Fenced
still_waiting now none = none
still_waiting now (some f) = if is_waiting f.task.state && is_live now f.job then some f else none

abbrev pub resumable_task : Db → ℕ → Option LiveSession → Option Fenced
resumable_task db now none = none
resumable_task db now (some s) =
    still_waiting now (with_job db (find_where (task_named s.task_id) db.tasks))

-- The row of the three joined tables that `resume_live_session` locks.
unfoldable pub resumable : Db → ℕ → ℕ → Option Fenced
resumable db now session = resumable_task db now (find_where (is_resumable now session) db.sessions)

abbrev pub see_session : ℕ → LiveSession → LiveSession
see_session now s = record s { last_seen_at = some now }

abbrev pub resumed : Task → Job → ℕ → ℕ → ℕ → ClaimedTask
resumed t j token bytes artifacts = record {
  id = t.id;
  job_id = t.job_id;
  url = t.original_url;
  normalized_url = t.normalized_url;
  origin_key = t.origin_key;
  depth = t.depth;
  attempt = t.attempt_count;
  lease_token = token;
  deadline_at = j.deadline_at;
  config = j.config;
  byte_allowance = bytes;
  artifact_allowance = artifacts;
  required_capabilities = t.required_capabilities;
}

unfoldable pub grant_resumed :
    Db → ℕ → ℕ → String → ℕ → Task → Job → ℕ → ℕ → Db × Option ClaimedTask
unfolding reserve_budget lease_task
grant_resumed db now session worker token t j bytes artifacts = (
  record db {
    jobs = update_where (job_named t.job_id) (reserve_budget bytes artifacts) db.jobs;
    tasks = update_where (task_named t.id) (lease_task now worker token bytes artifacts) db.tasks;
    leases = db.leases ++ origin_lease t token now ∷ [];
    sessions = update_where (λ s. s.id == session) (see_session now) db.sessions;
  },
  some (resumed t j token bytes artifacts),
)

unfoldable pub resume_found : Db → ℕ → ℕ → String → ℕ → Task → Job → Db × Option ClaimedTask
unfolding grant_resumed byte_allowance artifact_allowance
resume_found db now session worker token t j =
    let bytes = byte_allowance j t in
    let artifacts = artifact_allowance j in
    if exists_where (lease_on t.origin_key) db.leases || leb bytes 0 || leb artifacts 0
    then (db, none)
    else grant_resumed db now session worker token t j bytes artifacts

-- `resume_live_session`
unfoldable pub resume_live_session : Db → ℕ → ℕ → String → ℕ → Db × Option ClaimedTask
unfolding resumable resume_found
resume_live_session db now session worker token = elim (resumable db now session) [
  | none ↦ (db, none)
  | some f ↦ resume_found db now session worker token f.task f.job
]
