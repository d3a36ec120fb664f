-- ===== src/Queue/Budget/Inserts.antt =====
-- The budget invariant under the INSERTs of tasks: `_insert_discovered` and `complete_task` of
-- app/crawl/repository.py.
use crawltrove.Base.{
  ℕ, ◌+◌, ◌-◌, ◌≤◌, ◌≡◌, refl, String, true, false, List, [], ◌∷◌, ◌++◌, ◌||◌, if_cases, ◌==◌, ltb,
  leb, arith, exists_where, exists_where-none, Row, All, Any, All-weaken, All-append, All-Row,
  Any-append, Distinct-append, sum_of-append,
}
use crawltrove.Queue.Rows.{Job, Task, Db}
use crawltrove.Queue.Results.{Keeps, Yields, Yields-bind}
use crawltrove.Queue.Ledger.{job_named, task_named}
use crawltrove.Queue.Settle.{Fenced, release_lease, actual_bytes, finish_attempt}
use crawltrove.Queue.Terminal.{is_held}
use crawltrove.Queue.Discover.{
  UrlTools, new_task, insert_task, same_url, child_task, discover_url, discover_urls, is_foreign,
  count_discovered, insert_discovered,
}
use crawltrove.Queue.Finish.{
  TaskResult, succeed_task, count_success, settle_success, store_result, complete_active,
  complete_task, artifact_size, is_over_budget,
}
use crawltrove.Queue.Fence.{IsHeld}
use crawltrove.Queue.Budget.{Budget, IsBudgeted, SameBudget, JobFits, bytes_in, artifacts_in}
use crawltrove.Queue.Budget.Statements.{Budget-jobs, fits-SumsKept}
use crawltrove.Queue.Budget.Leases.{Frees, Budget-settle, Budget-charge, bytes_of, artifacts_of}
use crawltrove.Queue.Budget.Ends.{held-Picks, Budget-close}
use crawltrove.Queue.Budget.Finishes.{fenced-Budget, reject_over_budget-Budget, actual-le-reserved}

-- A row as the INSERTs make it: of a known job, and with nothing reserved.
pub record IsNew (jobs : List Job) (t : Task) : Type 0 where
  pub bytes : t.byte_budget_reserved ≡ 0
  pub artifacts : t.artifact_budget_reserved ≡ 0
  pub job : Any (λ (j : Job). j.id ≡ t.job_id) jobs

module _ {k bytes artifacts : ℕ} {jobs : List Job} (tasks : List Task) (t : Task) where
  append-Budget :
      IsNew jobs t
      → All (λ x. task_named t.id x ≡ false) tasks
      → IsBudgeted k bytes artifacts jobs tasks
      → IsBudgeted k bytes artifacts jobs (tasks ++ t ∷ [])
  append-Budget new fresh h = record {
    job_ids = h.job_ids;
    task_ids =
        Distinct-append _ tasks t (All-weaken tasks (λ x e p. ground arith) fresh) h.task_ids;
    idle = All-append _ tasks t h.idle (λ _. (new.bytes, new.artifacts));
    owned = All-append _ tasks t h.owned new.job;
    all_fit = fits-SumsKept _ sums h;
  }
    where
      nothing : (job : ℕ) → (bytes_of job t ≡ 0) × (artifacts_of job t ≡ 0)
      nothing job = (ground (arith, new.bytes), ground (arith, new.artifacts))

      sums :
          (job : ℕ)
          → (bytes_in (tasks ++ t ∷ []) job ≡ bytes_in tasks job)
            × (artifacts_in (tasks ++ t ∷ []) job ≡ artifacts_in tasks job)
      sums job = (
        omega (arith, sum_of-append (bytes_of job) tasks t, (nothing job).0),
        omega (arith, sum_of-append (artifacts_of job) tasks t, (nothing job).1),
      )

  -- The INSERT keeps the budgets.
  pub insert_task-IsBudgeted :
      IsNew jobs t
      → IsBudgeted k bytes artifacts jobs tasks
      → Yields (λ r. IsBudgeted k bytes artifacts jobs r.0) (insert_task tasks t)
  unfolding insert_task
  insert_task-IsBudgeted new h =
      if_cases (Yields (λ r. IsBudgeted k bytes artifacts jobs r.0))
        (exists_where (same_url t) tasks) _ _ (λ _. h)
        (λ _.
          if_cases (Yields (λ r. IsBudgeted k bytes artifacts jobs r.0))
            (exists_where (task_named t.id) tasks) _ _ (λ _. tt)
            (λ e. append-Budget new (exists_where-none (task_named t.id) tasks e) h))

  -- The INSERT keeps the budgets and every row.
  pub insert_task-Budget :
      (s : Task)
      → IsNew jobs t
      → IsBudgeted k bytes artifacts jobs tasks
      → Row s tasks
      → Yields (λ r. IsBudgeted k bytes artifacts jobs r.0 × Row s r.0) (insert_task tasks t)
  unfolding insert_task
  insert_task-Budget s new h row =
      if_cases (Yields _) (exists_where (same_url t) tasks) _ _ (λ _. (h, row))
        (λ _.
          if_cases (Yields _) (exists_where (task_named t.id) tasks) _ _ (λ _. tt)
            (λ e. (
              append-Budget new (exists_where-none (task_named t.id) tasks e) h,
              Any-append _ tasks t row,
            )))

module _ (tools : UrlTools) (uuids : ℕ → ℕ) (jobs : List Job) (now : ℕ) (f : Fenced) where
  abbrev Good : List Task × ℕ → Type 0
  Good r = IsBudgeted 0 0 0 jobs r.0 × Row f.task r.0

  discover_url-Good :
      (remaining : ℕ) (url : String) (tasks : List Task) (accepted : ℕ)
      → Good (tasks, accepted)
      → Yields Good (discover_url tools uuids now f remaining url tasks accepted)
  unfolding discover_url child_task new_task
  discover_url-Good remaining url tasks accepted h =
      if_cases (Yields Good) (leb remaining accepted || is_foreign tools uuids f url) _ _ (λ _. h)
        (λ _.
          Yields-bind (λ r. IsBudgeted 0 0 0 jobs r.0 × Row f.task r.0) Good
            (insert_task tasks (child_task tools uuids now f url accepted)) _
            (insert_task-Budget tasks (child_task tools uuids now f url accepted) f.task
              (record {
                bytes = refl;
                artifacts = refl;
                job = All-Row _ f.task tasks h.1 h.0.owned;
              })
              h.0 h.1)
            (λ r k. k))

  discover_urls-Good :
      (remaining : ℕ) (urls : List String) (tasks : List Task) (accepted : ℕ)
      → Good (tasks, accepted)
      → Yields Good (discover_urls tools uuids now f remaining urls tasks accepted)
  unfolding discover_urls
  discover_urls-Good remaining [] tasks accepted h = h
  discover_urls-Good remaining (url ∷ urls) tasks accepted h =
      Yields-bind Good Good (discover_url tools uuids now f remaining url tasks accepted) _
        (discover_url-Good remaining url tasks accepted h)
        (λ r k. discover_urls-Good remaining urls r.0 r.1 k)

count_discovered-same :
    (accepted seq : ℕ) (tools : UrlTools) (uuids : ℕ → ℕ) (j : Job)
    → SameBudget (count_discovered tools uuids accepted seq j) j
unfolding count_discovered
count_discovered-same accepted seq tools uuids j = record {
  id = refl;
  max_bytes = refl;
  max_artifact_bytes = refl;
  downloaded = refl;
  reserved = refl;
  artifacts = refl;
  reserved_artifacts = refl;
}

succeed_task-Frees : (now result : ℕ) → Frees (succeed_task now result)
unfolding succeed_task
succeed_task-Frees now result = record {
  keys = λ t. (refl, refl);
  bytes = λ x. refl;
  artifacts = λ x. refl;
}

-- The task's own job and tasks stay held and within budget.
abbrev pub HeldBudget : Task → Db → Type 0
HeldBudget t db = IsBudgeted 0 0 0 db.jobs db.tasks × Row t db.tasks

insert_discovered-Budget :
    (tools : UrlTools) (uuids : ℕ → ℕ) (db : Db) (now : ℕ) (f : Fenced) (urls : List String)
    → HeldBudget f.task db
    → Keeps (HeldBudget f.task) (insert_discovered tools uuids db now f urls)
unfolding insert_discovered
insert_discovered-Budget tools uuids db now f urls h =
    if_cases (Keeps (HeldBudget f.task))
      (ltb f.job.config.max_depth (f.task.depth + 1)
        || f.job.max_pages - f.job.discovered_count == 0)
      _ _ (λ _. h)
      (λ _.
        Yields-bind (Good tools uuids db.jobs now f) (λ r. HeldBudget f.task r.0)
          (discover_urls tools uuids now f (f.job.max_pages - f.job.discovered_count) urls db.tasks
            0)
          _ (discover_urls-Good tools uuids db.jobs now f _ urls db.tasks 0 h)
          (λ r k.
            if_cases (HeldBudget f.task) (r.1 == 0) _ _ (λ _. k)
              (λ _. (
                Budget-jobs (job_named f.task.job_id) _
                    (count_discovered-same r.1 (f.job.next_discovery_seq + r.1) tools uuids) k.0,
                k.1,
              ))))

count_success-fits :
    {k bytes artifacts : ℕ} {tasks : List Task} (b a : ℕ) (j : Job)
    → b ≤ bytes
    → a ≤ artifacts
    → JobFits k bytes artifacts tasks j
    → job_named k j ≡ true
    → JobFits k (bytes - b) (artifacts - a) tasks (count_success b a j)
unfolding count_success
count_success-fits b a j hb ha h e = record {
  reserved = h.reserved;
  reserved_artifacts = h.reserved_artifacts;
  fits = ground (arith, h.fits);
  artifacts_fit = ground (arith, h.artifacts_fit);
}

settle_success-Budget :
    (db : Db) (now : ℕ) (t : Task) (r : TaskResult) (result downloaded artifacts : ℕ)
    → IsHeld db.tasks t
    → downloaded ≤ t.byte_budget_reserved
    → artifacts ≤ t.artifact_budget_reserved
    → Budget 0 0 0 db
    → Budget 0 0 0 (settle_success db now t r result downloaded artifacts)
unfolding settle_success release_lease finish_attempt
settle_success-Budget db now t r result downloaded artifacts held hb ha h = Budget-close 0 (
    Budget-charge (count_success downloaded artifacts) downloaded artifacts hb ha
      (unfold count_success in λ j. refl)
      (λ j x e. count_success-fits downloaded artifacts j hb ha x e)
      (Budget-settle t (is_held t) (succeed_task now result) (held-Picks t held)
        (succeed_task-Frees now result) h))

within_budget :
    (t : Task) (r : TaskResult)
    → is_over_budget t r ≡ false
    → artifact_size r ≤ t.artifact_budget_reserved
within_budget t r h = ground arith

module _ (tools : UrlTools) (uuids : ℕ → ℕ) where
  store_result-Budget :
      (db : Db) (now : ℕ) (f : Fenced) (r : TaskResult) (result : ℕ)
      → IsHeld db.tasks f.task
      → artifact_size r ≤ f.task.artifact_budget_reserved
      → Budget 0 0 0 db
      → Keeps (Budget 0 0 0) (store_result tools uuids db now f r result)
  unfolding store_result
  store_result-Budget db now f r result held le h =
      if_cases (Keeps (Budget 0 0 0)) (exists_where (λ x. x.task_id == f.task.id) db.results) _ _
        (λ _. h)
        (λ _.
          Yields-bind (λ x. HeldBudget f.task x.0) (λ x. Budget 0 0 0 x.0)
            (insert_discovered tools uuids _ now f r.discovered_urls) _
            (insert_discovered-Budget tools uuids _ now f r.discovered_urls (h, held.row))
            (λ x k.
              settle_success-Budget x.0 now f.task r result (actual_bytes f.task r.metadata)
                (artifact_size r)
                (record {
                  row = k.1;
                  leased = held.leased;
                  token = held.token;
                  has_token = held.has_token;
                })
                (actual-le-reserved f.task r.metadata) le k.0))

  -- Completing a task keeps the budgets, whatever size the worker reports.
  pub complete_task-Budget :
      (db : Db) (now id token : ℕ) (r : TaskResult) (result : ℕ)
      → Budget 0 0 0 db
      → Keeps (Budget 0 0 0) (complete_task tools uuids db now id token r result)
  unfolding complete_task complete_active
  complete_task-Budget db now id token r result h =
      fenced-Budget db now id token false (complete_active tools uuids db now r result) h (λ f held.
        if_cases (Keeps (Budget 0 0 0)) _ _ (store_result tools uuids db now f r result)
          (λ e. reject_over_budget-Budget db now f.task r.metadata _ held h)
          (λ e. store_result-Budget db now f r result held (within_budget f.task r e) h))
