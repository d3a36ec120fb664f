-- ===== src/Queue/Budget/Retry.antt =====
-- The byte budgets of the queue under `retry_failures` of app/crawl/repository.py.
use crawltrove.Base.{
  is_empty, ℕ, ◌+◌, ◌≡◌, refl, String, not, Option, none, some, List, [], ◌∷◌, ◌||◌, ◌&&◌, ◌==◌,
  if◌then◌else◌, if_cases, length, find_where, exists_where, Any, Any-last, Row, ap, find_where-Row,
  str_eq, Option-cases, inl, inr,
}
use crawltrove.Queue.Rows.{Job, Task, Db, CrawlConfig}
use crawltrove.Queue.Results.{
  Result, ok, err, constraint_violation, value_error, Yields, Keeps, Yields-bind, Yields-after,
  raise_if,
}
use crawltrove.Queue.Ledger.{job_named}
use crawltrove.Queue.Claim.{ensure_origin, origin_named}
use crawltrove.Queue.Discover.{UrlTools, new_task, insert_task}
use crawltrove.Queue.Jobs.{Fresh, submit_job, insert_job, keyed_job, has_key, seed_task, new_job}
use crawltrove.Queue.Retry.{
  retried_task, insert_retried, count_retried, extend_retry, after_extension, after_submission,
  start_retry, retry_found, retry_failures, retry_config, unique, retryable_rows,
}
use crawltrove.Queue.Budget.{Budget, IsBudgeted}
use crawltrove.Queue.Budget.Statements.{Budget-jobs}
use crawltrove.Queue.Budget.Inserts.{IsNew, insert_task-IsBudgeted}
use crawltrove.Queue.Budget.Submit.{submit_job-Budget}

-- The job is in the table.
abbrev HasJob : ℕ → Db → Type 0
HasJob job db = Any (λ (j : Job). j.id ≡ job) db.jobs

abbrev BudgetWith : ℕ → Db → Type 0
BudgetWith job db = Budget 0 0 0 db × HasJob job db

ensure_origin-jobs : (db : Db) (now : ℕ) (key : String) → (ensure_origin db now key).jobs ≡ db.jobs
unfolding ensure_origin
ensure_origin-jobs db now key =
    if_cases (λ (d : Db). d.jobs ≡ db.jobs) (exists_where (origin_named key) db.origins) db _
      (λ _. refl) (λ _. refl)

ensure_origin-BudgetWith :
    (job : ℕ) (db : Db) (now : ℕ) (key : String)
    → BudgetWith job db
    → BudgetWith job (ensure_origin db now key)
unfolding ensure_origin
ensure_origin-BudgetWith job db now key h =
    if_cases (BudgetWith job) (exists_where (origin_named key) db.origins) db _ (λ _. h) (λ _. h)

module _ (tools : UrlTools) (uuids : ℕ → ℕ) where
  insert_retried-BudgetWith :
      (now job : ℕ) (config : CrawlConfig) (rows : List Task) (db : Db) (id sequence : ℕ)
      → BudgetWith job db
      → Keeps (BudgetWith job) (insert_retried tools uuids now job config rows db id sequence)
  unfolding insert_retried
  insert_retried-BudgetWith now job config [] db id sequence h = h
  insert_retried-BudgetWith now job config (row ∷ rest) db id sequence h =
      let ready = ensure_origin db now (tools.origin_key (tools.normalize_url row.original_url)) in
      let kept =
        ensure_origin-BudgetWith job db now
          (tools.origin_key (tools.normalize_url row.original_url)) h in
      Yields-bind (λ r. IsBudgeted 0 0 0 ready.jobs r.0) (λ r. BudgetWith job r.0)
        (insert_task ready.tasks (retried_task tools uuids now job config row id sequence)) _
        (insert_task-IsBudgeted ready.tasks
          (retried_task tools uuids now job config row id sequence)
          (new_row row id sequence ready kept.1) kept.0)
        (λ r k.
          insert_retried-BudgetWith now job config rest (record ready { tasks = r.0 }) (id + 1)
            (if r.1 then sequence + 1 else sequence) (k, kept.1))
    where
      new_row :
          (row : Task) (id sequence : ℕ) (d : Db)
          → HasJob job d
          → IsNew d.jobs (retried_task tools uuids now job config row id sequence)
      new_row row id sequence d k =
          unfold new_task in record { bytes = refl; artifacts = refl; job = k }

  extend_retry-Budget :
      (db : Db) (now source job : ℕ) (config : CrawlConfig) (rest : List Task)
      → BudgetWith job db
      → Keeps (Budget 0 0 0) (extend_retry tools uuids db now source job config rest)
  unfolding extend_retry count_retried
  extend_retry-Budget db now source job config rest h =
      Yields-bind (λ r. BudgetWith job r.0) (λ r. Budget 0 0 0 r.0)
        (insert_retried tools uuids now job config rest db 0 1) _
        (insert_retried-BudgetWith now job config rest db 0 1 h)
        (λ r k.
          Budget-jobs (job_named job) _
            (λ j. record {
              id = refl;
              max_bytes = refl;
              max_artifact_bytes = refl;
              downloaded = refl;
              reserved = refl;
              artifacts = refl;
              reserved_artifacts = refl;
            })
            k.0)

Row-HasJob : (jobs : List Job) (j : Job) → Row j jobs → Any (λ (x : Job). x.id ≡ j.id) jobs
Row-HasJob [] j h = elim h [ ]
Row-HasJob (x ∷ rest) j (inl e) = inl (ap (λ (y : Job). y.id) e)
Row-HasJob (x ∷ rest) j (inr k) = inr (Row-HasJob rest j k)

ensure_origin-HasJob :
    (job : ℕ) (db : Db) (now : ℕ) (key : String)
    → HasJob job db
    → HasJob job (ensure_origin db now key)
unfolding ensure_origin
ensure_origin-HasJob job db now key h =
    if_cases (HasJob job) (exists_where (origin_named key) db.origins) db _ (λ _. h) (λ _. h)

keyed_job-HasJob :
    (db : Db) (key : Option String) (j : Job) → keyed_job db key ≡ some j → HasJob j.id db
unfolding keyed_job
keyed_job-HasJob db none j e = cc
keyed_job-HasJob db (some key) j e =
    if_cases (λ (r : Option Job). r ≡ some j → HasJob j.id db) (str_eq key "") none
      (find_where (has_key (some key)) db.jobs) (λ _ e. cc)
      (λ _ e. Row-HasJob db.jobs j (find_where-Row (has_key (some key)) db.jobs j e).0) e

anything : {A : Type 0} (r : Result A) → Yields (λ _. Unit) r
anything (ok a) = tt
anything (err e) = tt

module _ (tools : UrlTools) where
  insert_job-HasJob :
      (db : Db) (now : ℕ) (fresh : Fresh) (config : CrawlConfig) (key : Option String)
      (trigger : String)
      → Yields (λ r. HasJob r.1 r.0) (insert_job tools db now fresh config key trigger)
  unfolding insert_job new_job
  insert_job-HasJob db now fresh config key trigger =
      Yields-after (λ r. HasJob r.1 r.0)
        (raise_if (exists_where (job_named fresh.job) db.jobs || exists_where (has_key key) db.jobs)
          constraint_violation)
        _
        λ u taken.
          Yields-bind (λ _. Unit) (λ r. HasJob r.1 r.0)
            (insert_task db.tasks (seed_task tools now fresh config)) _ (anything _)
            (λ r k.
              ensure_origin-HasJob fresh.job _ now
                (tools.origin_key (tools.normalize_url config.url)) (Any-last _ db.jobs _ refl))

  submit_job-HasJob :
      (db : Db) (now : ℕ) (fresh : Fresh) (config : CrawlConfig) (key : Option String)
      (trigger : String)
      → Yields (λ r. HasJob r.1 r.0) (submit_job tools db now fresh config key trigger)
  unfolding submit_job
  submit_job-HasJob db now fresh config key trigger = elim (Option-cases (keyed_job db key)) [
    | inl e ↦ rw (e, submit_job) (insert_job-HasJob db now fresh config key trigger)
    | inr (j, e) ↦ rw (e, submit_job) (keyed_job-HasJob db key j e)
  ]

module _ (tools : UrlTools) (uuids : ℕ → ℕ) where
  after_extension-Budget :
      (db : Db) (r : Result (Db × ℕ))
      → Budget 0 0 0 db
      → Keeps (Budget 0 0 0) r
      → Budget 0 0 0 (after_extension tools uuids db r).0
  after_extension-Budget db (ok r) h k = k
  after_extension-Budget db (err e) h k = h

  after_submission-Budget :
      (db : Db) (now source : ℕ) (config : CrawlConfig) (rest : List Task) (r : Result (Db × ℕ))
      → Budget 0 0 0 db
      → Keeps (Budget 0 0 0) r
      → Yields (λ x. HasJob x.1 x.0) r
      → Budget 0 0 0 (after_submission tools uuids db now source config rest r).0
  after_submission-Budget db now source config rest (err e) h k job = h
  after_submission-Budget db now source config [] (ok r) h k job = k
  after_submission-Budget db now source config (row ∷ rest) (ok r) h k job =
      after_extension-Budget r.0 _ k
        (extend_retry-Budget tools uuids r.0 now source r.1 config (row ∷ rest) (k, job))

  start_retry-Budget :
      (db : Db) (now source : ℕ) (fresh : Fresh) (config : CrawlConfig) (rows : List Task)
      → Budget 0 0 0 db
      → Budget 0 0 0 (start_retry tools uuids db now source fresh config rows).0
  start_retry-Budget db now source fresh config [] h = h
  start_retry-Budget db now source fresh config (row ∷ rest) h =
      let retried = retry_config config row (length (row ∷ rest)) in
      after_submission-Budget db now source retried rest _ h
        (submit_job-Budget tools db now fresh retried none "retry_failures" h)
        (submit_job-HasJob tools db now fresh retried none "retry_failures")

  retry_found-Budget :
      (db : Db) (now source : ℕ) (selected : List ℕ) (fresh : Fresh) (found : Option Job)
      → Budget 0 0 0 db
      → Budget 0 0 0 (retry_found tools uuids db now source selected fresh found).0
  retry_found-Budget db now source selected fresh none h = h
  retry_found-Budget db now source selected fresh (some j) h =
      if_cases (λ (r : Db × Result ℕ). Budget 0 0 0 r.0)
        (not (is_empty selected)
          && not (length (retryable_rows db source selected) == length selected))
        (db, err value_error)
        (start_retry tools uuids db now source fresh j.config (retryable_rows db source selected))
        (λ _. h)
        (λ _. start_retry-Budget db now source fresh j.config (retryable_rows db source selected) h)

-- `retry_failures` keeps the byte budgets of a store that has them, whatever it raises, and even
-- where its first transaction is committed and its second is not.
pub retry_failures-Budget :
    (tools : UrlTools) (uuids : ℕ → ℕ) (db : Db) (now source : ℕ) (ids : List ℕ) (fresh : Fresh)
    → Budget 0 0 0 db
    → Budget 0 0 0 (retry_failures tools uuids db now source ids fresh).0
unfolding retry_failures
retry_failures-Budget tools uuids db now source ids fresh h =
    retry_found-Budget tools uuids db now source (unique ids) fresh
      (find_where (job_named source) db.jobs) h
