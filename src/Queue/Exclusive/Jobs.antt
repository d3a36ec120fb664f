-- ===== src/Queue/Exclusive/Jobs.antt =====
-- The leases of the queue under submissions, cancellations and finalization in
-- app/crawl/repository.py.
use crawltrove.Base.{
  ℕ, ◌+◌, refl, String, Option, none, List, [], ◌∷◌, ◌||◌, if◌then◌else◌, if_cases, leb,
  Option-cases, inl, inr, update_where, find_where, exists_where, select_where,
}
use crawltrove.Queue.States.{is_finished, is_open}
use crawltrove.Queue.Rows.{Job, Db, CrawlConfig}
use crawltrove.Queue.Results.{Keeps, Yields-bind, Yields-after, raise_if}
use crawltrove.Queue.Ledger.{job_named, reconcile_abandoned}
use crawltrove.Queue.Settle.{is_queued_of}
use crawltrove.Queue.Frame.{reconcile_abandoned-Keeps}
use crawltrove.Queue.Claim.{ensure_origin, origin_named}
use crawltrove.Queue.Discover.{UrlTools, insert_task, new_task}
use crawltrove.Queue.Jobs.{
  Fresh, submit_job, insert_job, keyed_job, has_key, seed_task, request_cancel, cancel_open,
  cancel_task, finalize_jobs, finalize_rows, finalize_job, cancel_expired, close_job,
  is_nonterminal,
}
use crawltrove.Queue.Exclusive.{Exclusive, IsExclusive, Exclusive-tasks}
use crawltrove.Queue.Exclusive.Ends.{ExclusiveOn, cancel_run-Exclusive, Unleases-KeepsLease}
use crawltrove.Queue.Exclusive.Works.{insert_task-Exclusive}

pub ensure_origin-Exclusive :
    (db : Db) (now : ℕ) (key : String) → Exclusive db → Exclusive (ensure_origin db now key)
unfolding ensure_origin
ensure_origin-Exclusive db now key h =
    if_cases Exclusive (exists_where (origin_named key) db.origins) db _ (λ _. h) (λ _. h)

module _ (tools : UrlTools) where
  insert_job-Exclusive :
      (db : Db) (now : ℕ) (fresh : Fresh) (config : CrawlConfig) (key : Option String)
      (trigger : String)
      → Exclusive db
      → Keeps Exclusive (insert_job tools db now fresh config key trigger)
  unfolding insert_job new_task
  insert_job-Exclusive db now fresh config key trigger h =
      Yields-after (λ r. Exclusive r.0)
        (raise_if (exists_where (job_named fresh.job) db.jobs || exists_where (has_key key) db.jobs)
          _)
        _
        λ u taken.
          Yields-bind (λ r. IsExclusive r.0 db.leases) (λ r. Exclusive r.0)
            (insert_task db.tasks (seed_task tools now fresh config)) _
            (insert_task-Exclusive db.leases db.tasks (seed_task tools now fresh config) refl h)
            (λ r k.
              ensure_origin-Exclusive _ now (tools.origin_key (tools.normalize_url config.url)) k)

  pub submit_job-Exclusive :
      (db : Db) (now : ℕ) (fresh : Fresh) (config : CrawlConfig) (key : Option String)
      (trigger : String)
      → Exclusive db
      → Keeps Exclusive (submit_job tools db now fresh config key trigger)
  unfolding submit_job
  submit_job-Exclusive db now fresh config key trigger h = elim (Option-cases (keyed_job db key)) [
    | inl e ↦ rw (e, submit_job) (insert_job-Exclusive db now fresh config key trigger h)
    | inr (j, e) ↦ rw (e, submit_job) h
  ]

cancelled-Exclusive :
    (db : Db) (now job : ℕ)
    → Exclusive db
    → IsExclusive (update_where (is_queued_of job) (cancel_task now) db.tasks) db.leases
cancelled-Exclusive db now job h =
    Exclusive-tasks (is_queued_of job) (cancel_task now)
      (Unleases-KeepsLease (is_queued_of job) (cancel_task now) (unfold cancel_task in λ t. refl)) h

pub request_cancel-Exclusive :
    (db : Db) (now job : ℕ) → Exclusive db → Keeps Exclusive (request_cancel db now job)
unfolding request_cancel cancel_open
request_cancel-Exclusive db now job h = elim (Option-cases (find_where (job_named job) db.jobs)) [
  | inl e ↦ rw (e, request_cancel) h
  | inr (j, e) ↦
      rw (e, request_cancel)
        (if_cases (Keeps Exclusive) (is_finished j.state) _ _ (λ _. h)
          (λ _.
            Yields-bind (λ r. Exclusive r.0) (λ r. Exclusive r.0)
              (reconcile_abandoned (cancel_open db now job) now none) _
              (reconcile_abandoned-Keeps ExclusiveOn (cancel_open db now job) now none
                (cancel_run-Exclusive _ now _ (cancelled-Exclusive db now job h)))
              (λ r k. k)))
]

finalize_job-Exclusive :
    (db : Db) (now : ℕ) (j : Job) → Exclusive db → Exclusive (finalize_job now j db).0
unfolding finalize_job close_job cancel_expired
finalize_job-Exclusive db now j h =
    if_cases (λ (r : Db × ℕ). Exclusive r.0) (exists_where (is_nonterminal j.id) drained.tasks) _ _
      (λ _. kept) (λ _. kept)
  where
    drained : Db
    drained = if leb j.deadline_at now then cancel_expired db now j.id else db

    kept : Exclusive drained
    kept =
        if_cases Exclusive (leb j.deadline_at now) _ db (λ _. cancelled-Exclusive db now j.id h)
          (λ _. h)

finalize_rows-Exclusive :
    (now : ℕ) (rows : List Job) (db : Db) (n : ℕ)
    → Exclusive db
    → Exclusive (finalize_rows now rows db n).0
unfolding finalize_rows
finalize_rows-Exclusive now [] db n h = h
finalize_rows-Exclusive now (j ∷ rest) db n h =
    finalize_rows-Exclusive now rest (finalize_job now j db).0 (n + (finalize_job now j db).1)
      (finalize_job-Exclusive db now j h)

pub finalize_jobs-Exclusive :
    (db : Db) (now : ℕ) → Exclusive db → Exclusive (finalize_jobs db now).0
unfolding finalize_jobs
finalize_jobs-Exclusive db now h =
    finalize_rows-Exclusive now (select_where (λ j. is_open j.state) db.jobs) db 0 h
