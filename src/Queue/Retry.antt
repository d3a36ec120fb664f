-- ===== src/Queue/Retry.antt =====
-- `retry_failures` of app/crawl/repository.py: a new crawl from the failed URLs of an earlier one.
pub mod Repeatable
pub mod Selected
use crawltrove.Base.{
  ℕ, ◌+◌, ◌-◌, min, Bool, true, false, Option, none, some, List, [], ◌∷◌, ◌&&◌, ◌||◌, not,
  if◌then◌else◌, ◌==◌, leb, find_where, select_where, update_where, length, is_empty,
}
use crawltrove.Queue.States.{ErrorClass, transport, http, extraction, is_failure}
use crawltrove.Queue.Rows.{Job, Task, Db, CrawlConfig, EventMetadata}
use crawltrove.Queue.Results.{Result, ok, err, key_error, value_error, ◌>>=◌}
use crawltrove.Queue.Ledger.{job_named}
use crawltrove.Queue.Settle.{log_event}
use crawltrove.Queue.Claim.{ensure_origin}
use crawltrove.Queue.Discover.{UrlTools, new_task, required_capabilities, insert_task}
use crawltrove.Queue.Jobs.{Fresh, submit_job}

-- error_class IN ('transport','http','extraction')
abbrev pub is_retryable_class : Option ErrorClass → Bool
is_retryable_class none = false
is_retryable_class (some transport) = true
is_retryable_class (some http) = true
is_retryable_class (some extraction) = true
is_retryable_class (some _) = false

abbrev pub member : ℕ → List ℕ → Bool
member n [] = false
member n (m ∷ rest) = m == n || member n rest

-- `dict.fromkeys(task_ids)`: each identifier once
unfoldable pub unique : List ℕ → List ℕ
unique [] = []
unique (n ∷ rest) = let others = unique rest in n ∷ select_where (λ m. not (m == n)) others

abbrev pub is_retryable : ℕ → List ℕ → Task → Bool
is_retryable job selected t =
    t.job_id == job
    && is_failure t.state
    && is_retryable_class t.error_class
    && (is_empty selected || member t.id selected)

-- ORDER BY discovery_seq
unfoldable pub insert_by_seq : Task → List Task → List Task
insert_by_seq t [] = t ∷ []
insert_by_seq t (x ∷ rest) =
    let later = insert_by_seq t rest in
    if leb t.discovery_seq x.discovery_seq then t ∷ x ∷ rest else x ∷ later

unfoldable pub sort_by_seq : List Task → List Task
unfolding insert_by_seq
sort_by_seq [] = []
sort_by_seq (t ∷ rest) = insert_by_seq t (sort_by_seq rest)

-- LIMIT
unfoldable pub limit_rows : ℕ → List Task → List Task
limit_rows n [] = []
limit_rows n (t ∷ rest) = let later = limit_rows (n - 1) rest in if n == 0 then [] else t ∷ later

unfoldable pub retryable_rows : Db → ℕ → List ℕ → List Task
unfolding sort_by_seq limit_rows
retryable_rows db job selected =
    limit_rows 100 (sort_by_seq (select_where (is_retryable job selected) db.tasks))

unfoldable pub retry_config : CrawlConfig → Task → ℕ → CrawlConfig
retry_config config first count = record config {
  url = first.original_url;
  limit = min config.limit count;
}

module _ (tools : UrlTools) (uuids : ℕ → ℕ) where
  abbrev pub retried_task : ℕ → ℕ → CrawlConfig → Task → ℕ → ℕ → Task
  retried_task now job config row id sequence =
      let normalized = tools.normalize_url row.original_url in
      new_task now (uuids id) job row.original_url normalized (tools.url_hash normalized)
        (tools.origin_key normalized) 0 sequence none config.acquisition.max_attempts
        (required_capabilities config)

  -- The loop over the rows after the first; `id` counts the UUIDs that were drawn.
  unfoldable pub insert_retried : ℕ → ℕ → CrawlConfig → List Task → Db → ℕ → ℕ → Result (Db × ℕ)
  unfolding insert_task
  insert_retried now job config [] db id sequence = ok (db, sequence)
  insert_retried now job config (row ∷ rest) db id sequence = do
    let ready = ensure_origin db now (tools.origin_key (tools.normalize_url row.original_url))
    r ← insert_task ready.tasks (retried_task now job config row id sequence)
    insert_retried now job config rest (record ready { tasks = r.0 }) (id + 1)
        (if r.1 then sequence + 1 else sequence)

  unfoldable pub count_retried : ℕ → Job → Job
  count_retried sequence j = record j { discovered_count = sequence; next_discovery_seq = sequence }

  -- The second transaction, which adds the other URLs to the new job.
  unfoldable pub extend_retry : Db → ℕ → ℕ → ℕ → CrawlConfig → List Task → Result (Db × ℕ)
  unfolding insert_retried count_retried
  extend_retry db now source job config rest = do
    r ← insert_retried now job config rest db 0 1
    ok (
      log_event (record r.0 { jobs = update_where (job_named job) (count_retried r.1) (r.0).jobs })
          job none "job_retried_failures" (EventMetadata.retried source r.1),
      job,
    )

  -- What the call leaves and returns after its second transaction; `db` is the store before it.
  abbrev pub after_extension : Db → Result (Db × ℕ) → Db × Result ℕ
  after_extension db (ok (extended, job)) = (extended, ok job)
  after_extension db (err e) = (db, err e)

  abbrev pub after_submission :
      Db → ℕ → ℕ → CrawlConfig → List Task → Result (Db × ℕ) → Db × Result ℕ
  after_submission db now source config rest (err e) = (db, err e)
  after_submission db now source config [] (ok (submitted, job)) = (submitted, ok job)
  after_submission db now source config (row ∷ rest) (ok (submitted, job)) =
      after_extension submitted (extend_retry submitted now source job config (row ∷ rest))

  abbrev pub start_retry : Db → ℕ → ℕ → Fresh → CrawlConfig → List Task → Db × Result ℕ
  start_retry db now source fresh config [] = (db, err value_error)
  start_retry db now source fresh config (row ∷ rest) =
      let retried = retry_config config row (length (row ∷ rest)) in
      after_submission db now source retried rest
        (submit_job tools db now fresh retried none "retry_failures")

  -- The checks on the selected failures of the source job.
  abbrev pub retry_found : Db → ℕ → ℕ → List ℕ → Fresh → Option Job → Db × Result ℕ
  retry_found db now source selected fresh none = (db, err key_error)
  retry_found db now source selected fresh (some j) =
      let rows = retryable_rows db source selected in
      if not (is_empty selected) && not (length rows == length selected)
      then (db, err value_error)
      else start_retry db now source fresh j.config rows

  -- `retry_failures`: the store, and the new job or what was raised. The second transaction may
  -- fail after the first is committed.
  unfoldable pub retry_failures : Db → ℕ → ℕ → List ℕ → Fresh → Db × Result ℕ
  unfolding unique retryable_rows retry_config extend_retry
  retry_failures db now source ids fresh =
      retry_found db now source (unique ids) fresh (find_where (job_named source) db.jobs)
