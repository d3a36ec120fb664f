-- ===== src/Queue/Jobs/Submit.antt =====
-- `submit_job` and `_provider_usage_rows` of app/crawl/repository.py.
use crawltrove.Base.{
  ℕ, ◌+◌, ◌*◌, String, Bool, false, Option, none, some, List, [], ◌∷◌, ◌++◌, ◌||◌, if◌then◌else◌,
  str_eq, find_where, exists_where,
}
use crawltrove.Queue.States.{JobState}
use crawltrove.Queue.Rows.{
  Job, Task, Usage, EventMetadata, Db, CrawlConfig, CreditBudgets, BrowserbaseBudget,
}
use crawltrove.Queue.Results.{Result, ok, constraint_violation, ◌>>=◌, ◌>>◌, raise_if}
use crawltrove.Queue.Ledger.{job_named}
use crawltrove.Queue.Settle.{log_event}
use crawltrove.Queue.Claim.{ensure_origin}
use crawltrove.Queue.Discover.{UrlTools, new_task, required_capabilities, insert_task}

abbrev pub usage_row : ℕ → String → String → ℕ → Usage
usage_row job provider meter limit = record {
  job_id = job;
  provider = provider;
  meter = meter;
  limit_value = limit;
  reserved_value = 0;
  consumed_value = 0;
}

abbrev pub budget_rows : Option ℕ → (ℕ → Usage) → List Usage
budget_rows none row = []
budget_rows (some n) row = row n ∷ []

abbrev pub browserbase_rows : ℕ → Option BrowserbaseBudget → List Usage
browserbase_rows job none = []
browserbase_rows job (some b) =
    usage_row job "browserbase" "browserMinutes" b.browser_minutes
    ∷ usage_row job "browserbase" "proxyBytes" b.proxy_bytes
    ∷ []

-- `_provider_usage_rows`, as the rows that the INSERTs make
unfoldable pub provider_usage_rows : ℕ → CreditBudgets → List Usage
provider_usage_rows job b =
    budget_rows b.firecrawl (usage_row job "firecrawl" "credits")
    ++ (budget_rows b.brightdata (usage_row job "brightdata" "requests")
        ++ browserbase_rows job b.browserbase)

unfoldable pub new_job : ℕ → ℕ → ℕ → CrawlConfig → Option String → Job
new_job now id run config key = record {
  id = id;
  run_id = run;
  state = JobState.pending;
  config = config;
  max_pages = config.limit;
  max_bytes = config.max_bytes;
  max_artifact_bytes = config.max_artifact_bytes;
  discovered_count = 1;
  terminal_count = 0;
  succeeded_count = 0;
  failed_count = 0;
  blocked_count = 0;
  downloaded_bytes = 0;
  reserved_bytes = 0;
  artifact_bytes = 0;
  reserved_artifact_bytes = 0;
  browser_page_count = 0;
  next_discovery_seq = 1;
  terminal_reason = none;
  deadline_at = now + config.timeout_seconds * 1000;
  cancel_requested_at = none;
  started_at = none;
  finished_at = none;
  idempotency_key = key;
}

abbrev pub has_key : Option String → Job → Bool
has_key none j = false
has_key (some k) j = same j.idempotency_key
  where
    same : Option String → Bool
    same none = false
    same (some k') = str_eq k' k

-- The job that an idempotency key names; the empty key counts as none.
unfoldable pub keyed_job : Db → Option String → Option Job
keyed_job db none = none
keyed_job db (some key) = if str_eq key "" then none else find_where (has_key (some key)) db.jobs

-- The UUIDs and the run's serial number that a submission draws.
pub record Fresh : Type 0 where
  pub job : ℕ
  pub task : ℕ
  pub run : ℕ

module _ (tools : UrlTools) where
  abbrev pub seed_task : ℕ → Fresh → CrawlConfig → Task
  seed_task now fresh config =
      let normalized = tools.normalize_url config.url in
      new_task now fresh.task fresh.job config.url normalized (tools.url_hash normalized)
        (tools.origin_key normalized) 0 0 none config.acquisition.max_attempts
        (required_capabilities config)

  -- The INSERTs of a new job. A primary key or an idempotency key that is taken is an error.
  unfoldable pub insert_job :
      Db → ℕ → Fresh → CrawlConfig → Option String → String → Result (Db × ℕ)
  unfolding provider_usage_rows new_job insert_task new_task
  insert_job db now fresh config key trigger = do
    raise_if (exists_where (job_named fresh.job) db.jobs || exists_where (has_key key) db.jobs)
        constraint_violation
    seeded ← insert_task db.tasks (seed_task now fresh config)
    let inserted = record db {
      runs =
          db.runs
          ++ record {
            id = fresh.run;
            job = fresh.job;
            trigger = trigger;
            status = JobState.pending;
            finished_at = none;
          }
            ∷ [];
      jobs = db.jobs ++ new_job now fresh.job fresh.run config key ∷ [];
      usage = db.usage ++ provider_usage_rows fresh.job config.acquisition.credit_budgets;
      tasks = seeded.0;
    }
    ok (
      log_event (ensure_origin inserted now (tools.origin_key (tools.normalize_url config.url)))
          fresh.job (some fresh.task) "job_submitted" EventMetadata.empty,
      fresh.job,
    )

  -- `submit_job`, with no other transaction between its statements
  unfoldable pub submit_job :
      Db → ℕ → Fresh → CrawlConfig → Option String → String → Result (Db × ℕ)
  unfolding keyed_job insert_job
  submit_job db now fresh config key trigger = elim (keyed_job db key) [
    | some j ↦ ok (db, j.id)
    | none ↦ insert_job db now fresh config key trigger
  ]
