-- ===== src/Queue/Jobs/Recounted.antt =====
-- `reconcile_job` of app/crawl/repository.py: what the recounted columns of a job say of its tasks and
-- attempts.
use crawltrove.Base.{
  All-weaken, ==_iff, ℕ, ◌+◌, ◌<◌, ◌≤◌, ◌≡◌, refl, Bool, true, false, List, [], ◌∷◌, ◌==◌, arith,
  All, All-update_where, if_cases, exists_where, sum_of, sum_where, count_where,
}
use crawltrove.Queue.States.{TaskState, is_terminal, is_succeeded, is_failure, is_blocked}
use crawltrove.Queue.Rows.{Job, Task, Attempt, Db}
use crawltrove.Queue.Meters.{amount_of}
use crawltrove.Queue.Ledger.{job_named}
use crawltrove.Queue.Jobs.{recount, reconcile_job, next_seq, task_of, job_tasks_where}

-- The task was cancelled.
abbrev pub is_cancelled : TaskState → Bool
is_cancelled TaskState.cancelled = true
is_cancelled _ = false

-- The task still has something to do.
abbrev pub is_unfinished : TaskState → Bool
is_unfinished TaskState.pending = true
is_unfinished TaskState.leased = true
is_unfinished TaskState.retry_wait = true
is_unfinished TaskState.waiting_input = true
is_unfinished _ = false

-- The counters of a job add up over the tasks, and bound what the rows have.
pub record IsRecounted (db : Db) (j : Job) : Type 0 where
  outcomes :
      j.terminal_count
      ≡ j.succeeded_count
        + j.failed_count
        + j.blocked_count
        + count_where (job_tasks_where j.id is_cancelled) db.tasks
  others :
      j.discovered_count
      ≡ j.terminal_count + count_where (job_tasks_where j.id is_unfinished) db.tasks
  next : All (λ t. t.job_id ≡ j.id → t.discovery_seq < j.next_discovery_seq) db.tasks
  reserved : All (λ t. t.job_id ≡ j.id → t.byte_budget_reserved ≤ j.reserved_bytes) db.tasks
  reserved_artifacts :
      All (λ t. t.job_id ≡ j.id → t.artifact_budget_reserved ≤ j.reserved_artifact_bytes) db.tasks
  downloaded :
      All
        (λ a. a.job_id ≡ j.id → amount_of "downloaded_bytes" a.actual_cost ≤ j.downloaded_bytes)
        db.attempts
  artifacts :
      All
        (λ a. a.job_id ≡ j.id → amount_of "artifact_bytes" a.actual_cost ≤ j.artifact_bytes)
        db.attempts

outcomes_of :
    (job : ℕ) (ts : List Task)
    → count_where (job_tasks_where job is_terminal) ts
      ≡ count_where (job_tasks_where job is_succeeded) ts
        + count_where (job_tasks_where job is_failure) ts
        + count_where (job_tasks_where job is_blocked) ts
        + count_where (job_tasks_where job is_cancelled) ts
unfolding sum_of
outcomes_of job [] = refl
outcomes_of job (t ∷ ts) = ground (arith, outcomes_of job ts)

unfinished_of :
    (job : ℕ) (ts : List Task)
    → count_where (task_of job) ts
      ≡ count_where (job_tasks_where job is_terminal) ts
        + count_where (job_tasks_where job is_unfinished) ts
unfolding sum_of
unfinished_of job [] = refl
unfinished_of job (t ∷ ts) = ground (arith, unfinished_of job ts)

next_seq-above :
    (job : ℕ) (ts : List Task) → All (λ t. t.job_id ≡ job → t.discovery_seq < next_seq job ts) ts
unfolding next_seq
next_seq-above job [] = tt
next_seq-above job (t ∷ ts) =
    (λ e. ground (arith, e), All-weaken ts (λ x k e. ground (arith, k e)) (next_seq-above job ts))

-- A term of a sum is at most the sum.
sum_where-above :
    {A : Type 0} (p : A → Bool) (g : A → ℕ) (xs : List A)
    → All (λ x. p x ≡ true → g x ≤ sum_where p g xs) xs
unfolding sum_of
sum_where-above p g [] = tt
sum_where-above p g (x ∷ xs) =
    (λ e. ground (arith, e), All-weaken xs (λ y k e. omega (arith, k e)) (sum_where-above p g xs))

same_job :
    {A : Type 0} (job_id : A → ℕ) (g : A → ℕ) (job : ℕ) (xs : List A)
    → All (λ x. job_id x ≡ job → g x ≤ sum_where (λ y. job_id y == job) g xs) xs
same_job job_id g job xs =
    All-weaken xs (λ x k e. k ((==_iff (job_id x) job).1 e))
      (sum_where-above (λ y. job_id y == job) g xs)

recount-IsRecounted : (db : Db) (j : Job) → IsRecounted db (recount db j)
unfolding recount
recount-IsRecounted db j = record {
  outcomes = outcomes_of j.id db.tasks;
  others = unfinished_of j.id db.tasks;
  next = next_seq-above j.id db.tasks;
  reserved = same_job (λ (t : Task). t.job_id) (λ (t : Task). t.byte_budget_reserved) j.id db.tasks;
  reserved_artifacts =
      same_job (λ (t : Task). t.job_id) (λ (t : Task). t.artifact_budget_reserved) j.id db.tasks;
  downloaded =
      same_job (λ (a : Attempt). a.job_id)
        (λ (a : Attempt). amount_of "downloaded_bytes" a.actual_cost) j.id db.attempts;
  artifacts =
      same_job (λ (a : Attempt). a.job_id)
        (λ (a : Attempt). amount_of "artifact_bytes" a.actual_cost) j.id db.attempts;
}

All-rows : {A : Type 0} (xs : List A) → All (λ x. Unit) xs
All-rows [] = tt
All-rows (x ∷ xs) = (tt, All-rows xs)

unnamed :
    (P : Job → Type 0) (job : ℕ) (jobs : List Job)
    → exists_where (job_named job) jobs ≡ false
    → All (λ j. j.id ≡ job → P j) jobs
unfolding exists_where
unnamed P job [] e = tt
unnamed P job (j ∷ jobs) e =
    (λ same. absurd (ground (arith, e, same)), unnamed P job jobs (ground (arith, e)))

-- After reconcile_job the counters of the job fit together and fit its rows: the terminal tasks are
-- the succeeded, the failed, the blocked and the cancelled ones, the discovered tasks are those and
-- the tasks that still have something to do, the next sequence number is above that of every task,
-- and no task has more reserved, and no attempt has downloaded or stored more, than its job's column
-- says.
pub reconcile_job-IsRecounted :
    (db : Db) (job : ℕ) → All (λ j. j.id ≡ job → IsRecounted db j) (reconcile_job db job).0.jobs
unfolding reconcile_job
reconcile_job-IsRecounted db job =
    if_cases (λ (r : Db × Bool). All (λ j. j.id ≡ job → IsRecounted db j) r.0.jobs)
      (exists_where (job_named job) db.jobs) _ (db, false)
      (λ _.
        All-update_where (job_named job) (recount db) db.jobs
          (λ j k e same. recount-IsRecounted db j) (λ j k e same. absurd (ground (arith, e, same)))
          (All-rows db.jobs))
      (λ e. unnamed (IsRecounted db) job db.jobs e)
