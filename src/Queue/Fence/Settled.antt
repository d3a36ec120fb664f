-- ===== src/Queue/Fence/Settled.antt =====
-- Each settlement of a task in app/crawl/repository.py makes its lease token void.
use crawltrove.Base.{
  ℕ, ◌≡◌, refl, sym, subst, String, Bool, true, false, Option, none, some, List, [], ◌∷◌, if_cases,
  ◌==◌, leb, arith, update_where, find_where, exists_where, count_where, All, All-update_where,
}
use crawltrove.Queue.States.{
  TaskState, ErrorClass, is_leased, is_permanent_failed, is_cancelled_job, permanent_failed,
  blocked_robots, policy,
}
use crawltrove.Queue.Rows.{Job, Task, Db}
use crawltrove.Queue.Results.{Result, ok, Yields, Yields-after}
use crawltrove.Queue.Ledger.{job_named}
use crawltrove.Queue.Settle.{
  Fenced, Metadata, holds, fenced_task, is_queued_of, drain_task, drain_unleased,
  enforce_failure_limit, over_limit, charge_download, actual_bytes, release_lease, finish_attempt,
}
use crawltrove.Queue.Terminal.{
  is_held, end_task, terminalize, close_task, cancel_run, limit_failures, when_active,
  reject_inactive_lease,
}
use crawltrove.Queue.Discover.{UrlTools, insert_discovered}
use crawltrove.Queue.Finish.{
  TaskResult, complete_task, retry_task, fail_task, block_robots, fail_leased, requeue_task,
  retry_active, succeed_task, settle_success, store_result, complete_active, is_over_budget,
  artifact_size,
}
use crawltrove.Queue.Fence.{IsFenced, fenced_task-IsFenced}
use crawltrove.Queue.Fence.Once.{IsVoid, Refuses, IsVoid-Refuses}
use crawltrove.Classify.{FailureDecision}

-- The token is void in the store that a transaction leaves when it returns true.
abbrev Settled : ℕ → ℕ → Db × Bool → Type 0
Settled id token r = r.1 ≡ true → IsVoid id token r.0.tasks

when_active-Settled :
    (db : Db) (now id token : ℕ) (o : Option Fenced) (act : Fenced → Result (Db × Bool))
    → ((f : Fenced) → o ≡ some f → Yields (Settled id token) (act f))
    → Yields (Settled id token) (when_active db now o false act)
when_active-Settled db now id token none act h = λ e. cc
when_active-Settled db now id token (some f) act h =
    Yields-after (Settled id token) (reject_inactive_lease db now f) _ λ r e.
      if_cases (Yields (Settled id token)) r.1 (ok (r.0, false)) (act f) (λ _. λ k. cc)
        (λ _. h f refl)

All-rows : {A : Type 0} (xs : List A) → All (λ x. Unit) xs
All-rows [] = tt
All-rows (x ∷ xs) = (tt, All-rows xs)

-- The fenced row is the only one that an update of the held row matches under the token.
held-IsVoid :
    (db : Db) (id token : ℕ) (t : Task) (f : Task → Task) (tasks : List Task)
    → t.id ≡ id
    → t.lease_token ≡ some token
    → ((x : Task) → is_leased (f x).state ≡ false)
    → IsVoid id token (update_where (is_held t) f tasks)
held-IsVoid db id token t f tasks named has frees =
    All-update_where (is_held t) f tasks (λ x _ e. unheld (f x) (frees x)) (λ x _ e. missed x e)
      (All-rows tasks)
  where
    unheld : (x : Task) → is_leased x.state ≡ false → holds id token x ≡ false
    unheld x e = ground (arith, e)

    missed : (x : Task) → is_held t x ≡ false → holds id token x ≡ false
    missed x e = ground (arith, e, named, has)

cancel_run-tasks : (db : Db) (now : ℕ) (o : Option Job) → (cancel_run db now o).tasks ≡ db.tasks
unfolding cancel_run
cancel_run-tasks db now none = refl
cancel_run-tasks db now (some j) =
    if_cases (λ (d : Db). d.tasks ≡ db.tasks) (is_cancelled_job j.state) _ db (λ _. refl)
      (λ _. refl)

end_task-unleased :
    (now : ℕ) (state : TaskState) (cls : Option ErrorClass) (code : Option String)
    → is_leased state ≡ false
    → (x : Task) → is_leased (end_task now state cls code x).state ≡ false
unfolding end_task
end_task-unleased now state cls code h x = h

requeue_task-unleased :
    (now available : ℕ) (cls : ErrorClass) (code : String) (x : Task)
    → is_leased (requeue_task now available cls code x).state ≡ false
unfolding requeue_task
requeue_task-unleased now available cls code x = refl

module _ (id token : ℕ) where
  drain_unleased-IsVoid :
      (db : Db) (now job : ℕ) (reason : String)
      → IsVoid id token db.tasks
      → IsVoid id token (drain_unleased db now job reason).tasks
  unfolding drain_unleased drain_task
  drain_unleased-IsVoid db now job reason h =
      if_cases (λ (d : Db). IsVoid id token d.tasks) (count_where (is_queued_of job) db.tasks == 0)
        _ _ (λ _. drained) (λ _. drained)
    where
      drained : IsVoid id token (update_where (is_queued_of job) (drain_task now reason) db.tasks)
      drained =
          All-update_where (is_queued_of job) (drain_task now reason) db.tasks
            (λ x _ e. ground arith) (λ x k e. k) h

  limit_failures-IsVoid :
      (db : Db) (now : ℕ) (t : Task) (state : TaskState)
      → IsVoid id token db.tasks
      → IsVoid id token (limit_failures db now t state).tasks
  unfolding limit_failures enforce_failure_limit
  limit_failures-IsVoid db now t state h =
      if_cases (λ (d : Db). IsVoid id token d.tasks) (is_permanent_failed state) _ db
        (λ _.
          if_cases (λ (d : Db). IsVoid id token d.tasks)
            (over_limit (find_where (job_named t.job_id) db.jobs)) _ db
            (λ _. drain_unleased-IsVoid db now t.job_id "max_failures_exceeded" h) (λ _. h))
        (λ _. h)

  terminalize-IsVoid :
      (db : Db) (now : ℕ) (f : Fenced) (state : TaskState) (cls : Option ErrorClass)
      (code : Option String)
      → IsFenced db id token f
      → is_leased state ≡ false
      → IsVoid id token (terminalize db now f.task state cls code).tasks
  unfolding terminalize close_task release_lease finish_attempt
  terminalize-IsVoid db now f state cls code k h = limit_failures-IsVoid _ now f.task state (
      subst (IsVoid id token) (sym (cancel_run-tasks _ now _)) (
        held-IsVoid db id token f.task (end_task now state cls code) db.tasks k.named k.has_token
          (end_task-unleased now state cls code h)))

  charge_download-IsVoid :
      (db : Db) (t : Task) (n : ℕ)
      → IsVoid id token db.tasks
      → IsVoid id token (charge_download db t n).tasks
  unfolding charge_download
  charge_download-IsVoid db t n h =
      if_cases (λ (d : Db). IsVoid id token d.tasks) (n == 0) db _ (λ _. h) (λ _. h)

  fail_leased-IsVoid :
      (db : Db) (now : ℕ) (f : Fenced) (d : FailureDecision) (m : Metadata)
      → IsFenced db id token f
      → IsVoid id token (fail_leased db now f.task d m).tasks
  unfolding fail_leased finish_attempt
  fail_leased-IsVoid db now f d m k =
      charge_download-IsVoid _ f.task (actual_bytes f.task m) (
        terminalize-IsVoid db now f permanent_failed (some d.error_class) (some d.error_code) k
          refl)

  retry_active-IsVoid :
      (db : Db) (now : ℕ) (d : FailureDecision) (available : ℕ) (m : Metadata) (f : Fenced)
      → IsFenced db id token f
      → Yields (Settled id token) (retry_active db now d available m f)
  unfolding retry_active release_lease finish_attempt
  retry_active-IsVoid db now d available m f k =
      if_cases (Yields (Settled id token)) (leb f.task.max_attempts f.task.attempt_count) _ _
        (λ _ _. fail_leased-IsVoid db now f d m k)
        (λ _ _. charge_download-IsVoid _ f.task (actual_bytes f.task m) (
          held-IsVoid db id token f.task _ db.tasks k.named k.has_token
            (requeue_task-unleased now available d.error_class d.error_code)))

  settle_success-IsVoid :
      (db : Db) (now : ℕ) (t : Task) (r : TaskResult) (result downloaded artifacts : ℕ)
      → t.id ≡ id
      → t.lease_token ≡ some token
      → IsVoid id token (settle_success db now t r result downloaded artifacts).tasks
  unfolding settle_success release_lease finish_attempt
  settle_success-IsVoid db now t r result downloaded artifacts named has =
      held-IsVoid db id token t (succeed_task now result) db.tasks named has
        (unfold succeed_task in λ x. refl)

  module _ (tools : UrlTools) (uuids : ℕ → ℕ) where
    store_result-IsVoid :
        (db : Db) (now : ℕ) (f : Fenced) (r : TaskResult) (result : ℕ)
        → f.task.id ≡ id
        → f.task.lease_token ≡ some token
        → Yields (Settled id token) (store_result tools uuids db now f r result)
    unfolding store_result
    store_result-IsVoid db now f r result named has =
        if_cases (Yields (Settled id token)) (exists_where (λ x. x.task_id == f.task.id) db.results)
          (ok (db, false)) _ (λ _. λ k. cc)
          (λ _.
            Yields-after (Settled id token)
              (insert_discovered tools uuids _ now f r.discovered_urls) _
              (λ x e _.
                settle_success-IsVoid x.0 now f.task r result (actual_bytes f.task r.metadata)
                  (artifact_size r) named has))

-- A call that settles a leased task, and returned true.
pub data Settles (db : Db) (id token : ℕ) : Db → Type 0 where
  completed :
      (tools : UrlTools) (uuids : ℕ → ℕ) (now : ℕ) (r : TaskResult) (row : ℕ) (after : Db)
      → complete_task tools uuids db now id token r row ≡ ok (after, true)
      → Settles db id token after
  retried :
      (now : ℕ) (d : FailureDecision) (available : ℕ) (m : Metadata) (after : Db)
      → retry_task db now id token d available m ≡ ok (after, true)
      → Settles db id token after
  failed :
      (now : ℕ) (d : FailureDecision) (m : Metadata) (after : Db)
      → fail_task db now id token d m ≡ ok (after, true)
      → Settles db id token after
  blocked :
      (now : ℕ) (code : String) (after : Db)
      → block_robots db now id token code ≡ ok (after, true)
      → Settles db id token after

Settled-IsVoid :
    (id token : ℕ) (m : Result (Db × Bool)) (after : Db)
    → Yields (Settled id token) m
    → m ≡ ok (after, true)
    → IsVoid id token after.tasks
Settled-IsVoid id token m after h e = subst (Yields (Settled id token)) e h refl

Settles-IsVoid :
    (db : Db) (id token : ℕ) (after : Db) → Settles db id token after → IsVoid id token after.tasks
unfolding complete_task complete_active retry_task fail_task block_robots
Settles-IsVoid db id token _ (completed tools uuids now r row after e) =
    Settled-IsVoid id token (complete_task tools uuids db now id token r row) after
      (when_active-Settled db now id token (fenced_task db id token) _ λ f k.
        if_cases (Yields (Settled id token)) (is_over_budget f.task r) _
          (store_result tools uuids db now f r row) (λ _. λ x. cc)
          (λ _.
            store_result-IsVoid id token tools uuids db now f r row
              (fenced_task-IsFenced db id token f k).named
              (fenced_task-IsFenced db id token f k).has_token))
      e
Settles-IsVoid db id token _ (retried now d available m after e) =
    Settled-IsVoid id token (retry_task db now id token d available m) after
      (when_active-Settled db now id token (fenced_task db id token) _ λ f k.
        retry_active-IsVoid id token db now d available m f (fenced_task-IsFenced db id token f k))
      e
Settles-IsVoid db id token _ (failed now d m after e) =
    Settled-IsVoid id token (fail_task db now id token d m) after
      (when_active-Settled db now id token (fenced_task db id token) _
        λ f k _. fail_leased-IsVoid id token db now f d m (fenced_task-IsFenced db id token f k))
      e
Settles-IsVoid db id token _ (blocked now code after e) =
    Settled-IsVoid id token (block_robots db now id token code) after
      (when_active-Settled db now id token (fenced_task db id token) _ λ f k _.
        terminalize-IsVoid id token db now f blocked_robots (some policy) (some code)
          (fenced_task-IsFenced db id token f k) refl)
      e

-- A task is settled once under its token: after a complete_task, retry_task, fail_task or
-- block_robots that returned true, each of the operations of a worker with the same task and token
-- returns false and changes nothing.
pub Settles-Refuses :
    (db : Db) (id token : ℕ) (after : Db) → Settles db id token after → Refuses after id token
Settles-Refuses db id token after h =
    IsVoid-Refuses after id token (Settles-IsVoid db id token after h)
