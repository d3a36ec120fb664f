-- ===== src/Queue/Exclusive/Retry.antt =====
-- The leases of the queue under `retry_failures` of app/crawl/repository.py.
use crawltrove.Base.{
  is_empty, ℕ, ◌+◌, refl, Option, none, some, List, [], ◌∷◌, not, ◌&&◌, ◌==◌, if◌then◌else◌,
  if_cases, length, find_where,
}
use crawltrove.Queue.Rows.{Job, Task, Db, CrawlConfig}
use crawltrove.Queue.Results.{Result, ok, err, value_error, Keeps, Yields-bind}
use crawltrove.Queue.Ledger.{job_named}
use crawltrove.Queue.Claim.{ensure_origin}
use crawltrove.Queue.Discover.{UrlTools, insert_task, new_task}
use crawltrove.Queue.Jobs.{Fresh, submit_job}
use crawltrove.Queue.Retry.{
  retried_task, insert_retried, extend_retry, after_extension, after_submission, start_retry,
  retry_found, retry_failures, retry_config, unique, retryable_rows,
}
use crawltrove.Queue.Exclusive.{Exclusive, IsExclusive}
use crawltrove.Queue.Exclusive.Works.{insert_task-Exclusive}
use crawltrove.Queue.Exclusive.Jobs.{ensure_origin-Exclusive, submit_job-Exclusive}

module _ (tools : UrlTools) (uuids : ℕ → ℕ) where
  insert_retried-Exclusive :
      (now job : ℕ) (config : CrawlConfig) (rows : List Task) (db : Db) (id sequence : ℕ)
      → Exclusive db
      → Keeps Exclusive (insert_retried tools uuids now job config rows db id sequence)
  unfolding insert_retried new_task
  insert_retried-Exclusive now job config [] db id sequence h = h
  insert_retried-Exclusive now job config (row ∷ rest) db id sequence h =
      let key = tools.origin_key (tools.normalize_url row.original_url) in
      let ready = ensure_origin db now key in
      Yields-bind (λ r. IsExclusive r.0 ready.leases) (λ r. Exclusive r.0)
        (insert_task ready.tasks (retried_task tools uuids now job config row id sequence)) _
        (insert_task-Exclusive ready.leases ready.tasks
          (retried_task tools uuids now job config row id sequence) refl
          (ensure_origin-Exclusive db now key h))
        (λ r k.
          insert_retried-Exclusive now job config rest (record ready { tasks = r.0 }) (id + 1)
            (if r.1 then sequence + 1 else sequence) k)

  extend_retry-Exclusive :
      (db : Db) (now source job : ℕ) (config : CrawlConfig) (rest : List Task)
      → Exclusive db
      → Keeps Exclusive (extend_retry tools uuids db now source job config rest)
  unfolding extend_retry
  extend_retry-Exclusive db now source job config rest h =
      Yields-bind (λ r. Exclusive r.0) (λ r. Exclusive r.0)
        (insert_retried tools uuids now job config rest db 0 1) _
        (insert_retried-Exclusive now job config rest db 0 1 h) (λ r k. k)

  after_extension-Exclusive :
      (db : Db) (r : Result (Db × ℕ))
      → Exclusive db
      → Keeps Exclusive r
      → Exclusive (after_extension tools uuids db r).0
  after_extension-Exclusive db (ok r) h k = k
  after_extension-Exclusive db (err e) h k = h

  after_submission-Exclusive :
      (db : Db) (now source : ℕ) (config : CrawlConfig) (rest : List Task) (r : Result (Db × ℕ))
      → Exclusive db
      → Keeps Exclusive r
      → Exclusive (after_submission tools uuids db now source config rest r).0
  after_submission-Exclusive db now source config rest (err e) h k = h
  after_submission-Exclusive db now source config [] (ok r) h k = k
  after_submission-Exclusive db now source config (row ∷ rest) (ok r) h k =
      after_extension-Exclusive r.0 _ k
        (extend_retry-Exclusive r.0 now source r.1 config (row ∷ rest) k)

  start_retry-Exclusive :
      (db : Db) (now source : ℕ) (fresh : Fresh) (config : CrawlConfig) (rows : List Task)
      → Exclusive db
      → Exclusive (start_retry tools uuids db now source fresh config rows).0
  start_retry-Exclusive db now source fresh config [] h = h
  start_retry-Exclusive db now source fresh config (row ∷ rest) h =
      let retried = retry_config config row (length (row ∷ rest)) in
      after_submission-Exclusive db now source retried rest
        (submit_job tools db now fresh retried none "retry_failures") h
        (submit_job-Exclusive tools db now fresh retried none "retry_failures" h)

  retry_found-Exclusive :
      (db : Db) (now source : ℕ) (selected : List ℕ) (fresh : Fresh) (found : Option Job)
      → Exclusive db
      → Exclusive (retry_found tools uuids db now source selected fresh found).0
  retry_found-Exclusive db now source selected fresh none h = h
  retry_found-Exclusive db now source selected fresh (some j) h =
      if_cases (λ (r : Db × Result ℕ). Exclusive r.0)
        (not (is_empty selected)
          && not (length (retryable_rows db source selected) == length selected))
        (db, err value_error)
        (start_retry tools uuids db now source fresh j.config (retryable_rows db source selected))
        (λ _. h)
        (λ _.
          start_retry-Exclusive db now source fresh j.config (retryable_rows db source selected) h)

  pub retry_failures-Exclusive :
      (db : Db) (now source : ℕ) (ids : List ℕ) (fresh : Fresh)
      → Exclusive db
      → Exclusive (retry_failures tools uuids db now source ids fresh).0
  unfolding retry_failures
  retry_failures-Exclusive db now source ids fresh h =
      retry_found-Exclusive db now source (unique ids) fresh (find_where (job_named source) db.jobs)
        h
