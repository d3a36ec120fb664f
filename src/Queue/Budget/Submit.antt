-- ===== src/Queue/Budget/Submit.antt =====
-- The byte budgets of the queue under `submit_job` of app/crawl/repository.py.
use crawltrove.Base.{
  ℕ, ◌≡◌, refl, sym, ◌∙◌, String, Bool, true, false, Option, List, [], ◌∷◌, ◌++◌, ◌||◌, if_cases,
  ◌==◌, arith, exists_where, exists_where-none, Any, All, Any-All, All-weaken, All-append,
  Any-append, Any-last, Distinct-append, sum_of-zero, Option-cases, inl, inr,
}
use crawltrove.Queue.Rows.{Job, Task, CrawlConfig, Db}
use crawltrove.Queue.Results.{
  ok, Keeps, Yields-bind, Yields-after, raise_if, Error, constraint_violation,
}
use crawltrove.Queue.Ledger.{job_named}
use crawltrove.Queue.Claim.{ensure_origin, origin_named}
use crawltrove.Queue.Discover.{UrlTools, new_task, insert_task}
use crawltrove.Queue.Jobs.{new_job, Fresh, seed_task, insert_job, submit_job, keyed_job, has_key}
use crawltrove.Queue.Budget.{Budget, IsBudgeted}
use crawltrove.Queue.Budget.Leases.{bytes_of, artifacts_of}
use crawltrove.Queue.Budget.Inserts.{insert_task-IsBudgeted}

-- A job that has just been made: nothing is spent or reserved.
record IsFresh (j : Job) : Type 0 where
  downloaded : j.downloaded_bytes ≡ 0
  reserved : j.reserved_bytes ≡ 0
  artifacts : j.artifact_bytes ≡ 0
  reserved_artifacts : j.reserved_artifact_bytes ≡ 0

new_job-IsFresh :
    (now id run : ℕ) (config : CrawlConfig) (key : Option String)
    → IsFresh (new_job now id run config key)
unfolding new_job
new_job-IsFresh now id run config key = record {
  downloaded = refl;
  reserved = refl;
  artifacts = refl;
  reserved_artifacts = refl;
}

-- A new job has no tasks yet, because every task's job is in the table.
append_job-Budget :
    {jobs : List Job} {tasks : List Task} (j : Job)
    → IsFresh j
    → All (λ x. job_named j.id x ≡ false) jobs
    → IsBudgeted 0 0 0 jobs tasks
    → IsBudgeted 0 0 0 (jobs ++ j ∷ []) tasks
append_job-Budget {jobs} {tasks} j new fresh h = record {
  job_ids = Distinct-append _ jobs j (All-weaken jobs (λ x e p. ground arith) fresh) h.job_ids;
  task_ids = h.task_ids;
  idle = h.idle;
  owned = All-weaken tasks (λ t o. Any-append _ jobs j o) h.owned;
  all_fit = All-append _ jobs j h.all_fit (record {
    reserved =
        new.reserved
        ∙ sym (
            sum_of-zero (bytes_of j.id) tasks
              (All-weaken tasks (λ t o. no_bytes t (foreign t o)) h.owned));
    reserved_artifacts =
        new.reserved_artifacts
        ∙ sym (
            sum_of-zero (artifacts_of j.id) tasks
              (All-weaken tasks (λ t o. no_artifacts t (foreign t o)) h.owned));
    fits = ground (arith, new.downloaded, new.reserved);
    artifacts_fit = ground (arith, new.artifacts, new.reserved_artifacts);
  });
}
  where
    foreign : (t : Task) → Any (λ (x : Job). x.id ≡ t.job_id) jobs → t.job_id == j.id ≡ false
    foreign t o = Any-All _ _ (t.job_id == j.id ≡ false) jobs fresh o (λ x e q. ground arith)

    no_bytes : (t : Task) → t.job_id == j.id ≡ false → bytes_of j.id t ≡ 0
    no_bytes t e = rw e refl

    no_artifacts : (t : Task) → t.job_id == j.id ≡ false → artifacts_of j.id t ≡ 0
    no_artifacts t e = rw e refl

ensure_origin-Budget :
    (db : Db) (now : ℕ) (key : String) → Budget 0 0 0 db → Budget 0 0 0 (ensure_origin db now key)
unfolding ensure_origin
ensure_origin-Budget db now key h =
    if_cases (Budget 0 0 0) (exists_where (origin_named key) db.origins) db _ (λ _. h) (λ _. h)

raise_if-ok : (b : Bool) (e : Error) (u : Unit) → raise_if b e ≡ ok u → b ≡ false
raise_if-ok true e u h = cc
raise_if-ok false e u h = refl

module _ (tools : UrlTools) where
  insert_job-Budget :
      (db : Db) (now : ℕ) (fresh : Fresh) (config : CrawlConfig) (key : Option String)
      (trigger : String)
      → Budget 0 0 0 db
      → Keeps (Budget 0 0 0) (insert_job tools db now fresh config key trigger)
  unfolding insert_job new_task
  insert_job-Budget db now fresh config key trigger h =
      Yields-after (λ r. Budget 0 0 0 r.0)
        (raise_if (exists_where (job_named fresh.job) db.jobs || exists_where (has_key key) db.jobs)
          _)
        _
        λ u taken.
          let none_taken = raise_if-ok _ constraint_violation u taken in
          let free : exists_where (job_named fresh.job) db.jobs ≡ false =
            ground (arith, none_taken) in
          Yields-bind
            (λ r. IsBudgeted 0 0 0 (db.jobs ++ new_job now fresh.job fresh.run config key ∷ []) r.0)
            (λ r. Budget 0 0 0 r.0) (insert_task db.tasks (seed_task tools now fresh config)) _
            (insert_task-IsBudgeted db.tasks (seed_task tools now fresh config)
              (record {
                bytes = refl;
                artifacts = refl;
                job = Any-last _ db.jobs _ (unfold new_job in refl);
              })
              (append_job-Budget (new_job now fresh.job fresh.run config key)
                (new_job-IsFresh now fresh.job fresh.run config key)
                (unfold new_job in exists_where-none (job_named fresh.job) db.jobs free) h))
            (λ r k.
              ensure_origin-Budget _ now (tools.origin_key (tools.normalize_url config.url)) k)

  pub submit_job-Budget :
      (db : Db) (now : ℕ) (fresh : Fresh) (config : CrawlConfig) (key : Option String)
      (trigger : String)
      → Budget 0 0 0 db
      → Keeps (Budget 0 0 0) (submit_job tools db now fresh config key trigger)
  unfolding submit_job
  submit_job-Budget db now fresh config key trigger h = elim (Option-cases (keyed_job db key)) [
    | inl e ↦ rw (e, submit_job) (insert_job-Budget db now fresh config key trigger h)
    | inr (j, e) ↦ rw (e, submit_job) h
  ]
