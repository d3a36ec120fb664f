-- ===== src/Queue/Budget/Leased.antt =====
-- The budget invariant under `resume_live_session`, `heartbeat`, `reserve_browser_navigation` and
-- `reap_expired_leases` of app/crawl/repository.py.
use crawltrove.Base.{
  ℕ, ◌+◌, ◌≡◌, refl, subst, String, true, false, Option, none, some, List, [], ◌∷◌, ◌||◌, if_cases,
  leb, arith, exists_where, select_where, find_where, find_where-Row, Row, Option-cases, inl, inr,
}
use crawltrove.Queue.States.{TaskState, is_leased, permanent_failed, transport}
use crawltrove.Queue.Rows.{Task, LiveSession, Db}
use crawltrove.Queue.Results.{Keeps, Yields, Yields-bind}
use crawltrove.Queue.Ledger.{job_named, task_named, reconcile_abandoned}
use crawltrove.Queue.Settle.{Fenced, with_job, release_lease, finish_attempt}
use crawltrove.Queue.Terminal.{is_held, reject_inactive_lease}
use crawltrove.Queue.Claim.{byte_allowance, artifact_allowance, lease_on}
use crawltrove.Queue.Lease.{
  resume_live_session, resume_found, grant_resumed, resumable, is_resumable, is_waiting,
  still_waiting, resumable_task, extend_task, heartbeat, reserve_browser_navigation, count_browser,
  has_browser_budget, expire_lease, reap_lease, fenced_by, reap_row, reap_rows, reap_expired_leases,
  lease_is_over,
}
use crawltrove.Queue.Fence.{with_job-some, IsHeld}
use crawltrove.Queue.Frame.{reconcile_abandoned-Keeps, reject_inactive_lease-Keeps}
use crawltrove.Queue.Budget.{Budget}
use crawltrove.Queue.Budget.Statements.{Budget-tasks, Budget-jobs}
use crawltrove.Queue.Budget.Leases.{Budget-settle}
use crawltrove.Queue.Budget.Ends.{held-Picks, terminalize-Budget, Budget-close}
use crawltrove.Queue.Budget.Finishes.{fenced-Budget, fenced-IsHeld, requeue_task-Frees, BudgetOn}
use crawltrove.Queue.Budget.Claims.{Budget-reserve}
use crawltrove.Queue.Budget.Claimed.{
  Within, lease_task-Reserves, reserve_budget-Adds, allowance-HasRoom, id-Picks,
}

waiting_unleased : (s : TaskState) → is_waiting s ≡ true → is_leased s ≡ false
waiting_unleased s h = ground arith

-- The task and the job that a resumption finds.
pub record IsResumable (db : Db) (f : Fenced) : Type 0 where
  pub row : Row f.task db.tasks
  pub waiting : is_waiting f.task.state ≡ true
  pub job : find_where (job_named f.task.job_id) db.jobs ≡ some f.job

checked-some :
    (now : ℕ) (db : Db) (id : ℕ) (o : Option Fenced) (f : Fenced)
    → with_job db (find_where (task_named id) db.tasks) ≡ o
    → still_waiting now o ≡ some f
    → IsResumable db f
checked-some now db id none f e h = cc
checked-some now db id (some g) f e h =
    let same : g ≡ f = ground arith in
    let (t, j) = with_job-some db (find_where (task_named id) db.tasks) g e in
    subst (IsResumable db) same (record {
      row = (find_where-Row (task_named id) db.tasks g.task t).0;
      waiting = ground arith;
      job = j;
    })

pub resumable_task-IsResumable :
    (db : Db) (now : ℕ) (o : Option LiveSession) (f : Fenced)
    → resumable_task db now o ≡ some f
    → IsResumable db f
resumable_task-IsResumable db now none f h = cc
resumable_task-IsResumable db now (some s) f h = checked-some now db s.task_id _ f refl h

resume_found-Budget :
    (db : Db) (now session : ℕ) (worker : String) (token : ℕ) (f : Fenced)
    → IsResumable db f
    → Budget 0 0 0 db
    → Within (resume_found db now session worker token f.task f.job)
unfolding resume_found grant_resumed
resume_found-Budget db now session worker token f r h =
    if_cases Within
      (exists_where (lease_on f.task.origin_key) db.leases
        || leb (byte_allowance f.job f.task) 0
        || leb (artifact_allowance f.job) 0)
      _ _ (λ _. h)
      (λ e.
        Budget-reserve f.task f.job (task_named f.task.id) _ _ (id-Picks f.task r.row)
          (lease_task-Reserves now worker token _ _) (reserve_budget-Adds _ _)
          (waiting_unleased f.task.state r.waiting) r.job
          (allowance-HasRoom f.job f.task (ground arith)) h)

-- A parked task that is leased again reserves what was left in its job.
pub resume_live_session-Budget :
    (db : Db) (now session : ℕ) (worker : String) (token : ℕ)
    → Budget 0 0 0 db
    → Budget 0 0 0 (resume_live_session db now session worker token).0
unfolding resume_live_session
resume_live_session-Budget db now session worker token h =
    elim (Option-cases (resumable db now session)) [
      | inl e ↦ rw (e, resume_live_session) h
      | inr (f, e) ↦
          rw (e, resume_live_session)
            (resume_found-Budget db now session worker token f
              (unfold resumable in
                resumable_task-IsResumable db now
                  (find_where (is_resumable now session) db.sessions) f e)
              h)
    ]

pub heartbeat-Budget :
    (db : Db) (now id token : ℕ)
    → Budget 0 0 0 db
    → Keeps (Budget 0 0 0) (heartbeat db now id token)
unfolding heartbeat
heartbeat-Budget db now id token h = fenced-Budget db now id token false _ h λ f held.
    Budget-tasks (is_held f.task) (extend_task now) (λ t. (refl, refl))
      (λ t i e. record { bytes = refl; artifacts = refl; idle = i }) h

pub reserve_browser_navigation-Budget :
    (db : Db) (now id token : ℕ)
    → Budget 0 0 0 db
    → Keeps (Budget 0 0 0) (reserve_browser_navigation db now id token)
unfolding reserve_browser_navigation
reserve_browser_navigation-Budget db now id token h =
    fenced-Budget db now id token false _ h λ f held.
      Budget-jobs (has_browser_budget f.task.job_id) count_browser
        (λ j. record {
          id = refl;
          max_bytes = refl;
          max_artifact_bytes = refl;
          downloaded = refl;
          reserved = refl;
          artifacts = refl;
          reserved_artifacts = refl;
        })
        h

expire_lease-Budget :
    (db : Db) (now : ℕ) (t : Task)
    → IsHeld db.tasks t
    → Budget 0 0 0 db
    → Budget 0 0 0 (expire_lease db now t)
unfolding expire_lease release_lease finish_attempt
expire_lease-Budget db now t held h =
    if_cases (Budget 0 0 0) (leb t.max_attempts t.attempt_count) _ _
      (λ _. Budget-close 0 (
        terminalize-Budget db now t permanent_failed (some transport) (some "lease_expired") held
          h))
      (λ _. Budget-close 0 (
        Budget-settle t (is_held t) _ (held-Picks t held)
          (requeue_task-Frees now now transport "lease_expired") h))

reap_lease-Budget :
    (db : Db) (now : ℕ) (f : Fenced)
    → IsHeld db.tasks f.task
    → Budget 0 0 0 db
    → Yields (Budget 0 0 0) (reap_lease now f db)
unfolding reap_lease
reap_lease-Budget db now f held h =
    Yields-bind (λ r. Budget 0 0 0 r.0) (Budget 0 0 0) (reject_inactive_lease db now f) _
      (reject_inactive_lease-Keeps BudgetOn db now f h (λ state cls code _.
        Budget-close 0 (terminalize-Budget db now f.task state cls code held h)))
      (λ r k.
        if_cases (Budget 0 0 0) r.1 _ _ (λ _. k) (λ _. expire_lease-Budget db now f.task held h))

fenced_again-IsHeld :
    (db : Db) (id : ℕ) (o : Option ℕ) (f : Fenced)
    → fenced_by db id o ≡ some f
    → IsHeld db.tasks f.task
fenced_again-IsHeld db id none f h = cc
fenced_again-IsHeld db id (some token) f h = fenced-IsHeld db id token f h

reap_row-Budget :
    (db : Db) (now : ℕ) (t : Task) → Budget 0 0 0 db → Keeps (Budget 0 0 0) (reap_row now t db)
unfolding reap_row
reap_row-Budget db now t h = elim (Option-cases (fenced_by db t.id t.lease_token)) [
  | inl e ↦ rw (e, reap_row) h
  | inr (f, e) ↦
      rw (e, reap_row)
        (Yields-bind (Budget 0 0 0) (λ r. Budget 0 0 0 r.0) (reap_lease now f db) _
          (reap_lease-Budget db now f (fenced_again-IsHeld db t.id t.lease_token f e) h) (λ d k. k))
]

reap_rows-Budget :
    (now : ℕ) (rows : List Task) (db : Db) (n : ℕ)
    → Budget 0 0 0 db
    → Keeps (Budget 0 0 0) (reap_rows now rows db n)
unfolding reap_rows
reap_rows-Budget now [] db n h = h
reap_rows-Budget now (t ∷ rest) db n h =
    Yields-bind (λ r. Budget 0 0 0 r.0) (λ r. Budget 0 0 0 r.0) (reap_row now t db) _
      (reap_row-Budget db now t h) (λ r k. reap_rows-Budget now rest r.0 (n + r.1) k)

pub reap_expired_leases-Budget :
    (db : Db) (now : ℕ) → Budget 0 0 0 db → Keeps (Budget 0 0 0) (reap_expired_leases db now)
unfolding reap_expired_leases
reap_expired_leases-Budget db now h =
    Yields-bind (λ r. Budget 0 0 0 r.0) (λ r. Budget 0 0 0 r.0) (reconcile_abandoned db now none) _
      (reconcile_abandoned-Keeps BudgetOn db now none h)
      (λ r k. reap_rows-Budget now (select_where (lease_is_over now) r.0.tasks) r.0 0 k)
