-- ===== src/Queue/Discover.antt =====
-- `_required_capabilities` and `_insert_discovered` of app/crawl/repository.py. The URL functions
-- of app/normalize.py and the SHA-256 digest enter as the parameter `UrlTools`.
pub mod Children
use crawltrove.Base.{
  ℕ, ◌+◌, ◌-◌, String, Bool, true, false, Option, none, some, List, [], ◌∷◌, ◌++◌, ◌&&◌, ◌||◌, not,
  if◌then◌else◌, str_eq, ◌==◌, leb, ltb, update_where, exists_where,
}
use crawltrove.Queue.States.{TaskState}
use crawltrove.Queue.Rows.{Job, Task, Db, CrawlConfig, Engine, Provider}
use crawltrove.Queue.Results.{Result, ok, err, constraint_violation, ◌>>=◌}
use crawltrove.Queue.Ledger.{job_named, task_named}
use crawltrove.Queue.Settle.{Fenced}

pub record UrlTools : Type 0 where
  -- normalize.normalize_url and normalize.origin_key
  pub normalize_url : String → String
  pub origin_key : String → String
  -- hashlib.sha256 of the encoded text
  pub url_hash : String → ℕ

abbrev pub engine_capability : Engine → String
engine_capability Engine.auto = "http"
engine_capability Engine.http = "http"
engine_capability Engine.browser = "browser"

-- `_required_capabilities`
unfoldable pub required_capabilities : CrawlConfig → List String
required_capabilities c = elim c.acquisition.provider [
  | Provider.firecrawl ↦ "firecrawl_scrape" ∷ []
  | Provider.brightdata ↦ "brightdata_unlocker" ∷ []
  | Provider.browserbase ↦ "browserbase_session" ∷ []
  | _ ↦ engine_capability c.engine ∷ []
]

-- A row of crawl_tasks as the INSERTs make it, the other columns at their defaults.
unfoldable pub new_task :
    ℕ → ℕ → ℕ → String → String → ℕ → String → ℕ → ℕ → Option ℕ → ℕ → List String → Task
new_task now id job original normalized hash origin depth seq parent max_attempts capabilities =
    record {
      id = id;
      job_id = job;
      original_url = original;
      normalized_url = normalized;
      url_hash = hash;
      origin_key = origin;
      depth = depth;
      discovery_seq = seq;
      priority = depth;
      discovered_from_task_id = parent;
      state = TaskState.pending;
      available_at = now;
      attempt_count = 0;
      max_attempts = max_attempts;
      required_capabilities = capabilities;
      byte_budget_reserved = 0;
      artifact_budget_reserved = 0;
      lease_owner = none;
      lease_token = none;
      lease_expires_at = none;
      error_class = none;
      error_code = none;
      result_id = none;
      started_at = none;
      updated_at = now;
      finished_at = none;
    }

-- UNIQUE (job_id, url_hash)
abbrev pub same_url : Task → Task → Bool
same_url t x = x.job_id == t.job_id && x.url_hash == t.url_hash

-- INSERT … ON CONFLICT (job_id, url_hash) DO NOTHING: whether a row went in. A primary key that is
-- taken is an error.
unfoldable pub insert_task : List Task → Task → Result (List Task × Bool)
insert_task tasks t =
    if exists_where (same_url t) tasks
    then ok (tasks, false)
    else if exists_where (task_named t.id) tasks
    then err constraint_violation
    else ok (tasks ++ t ∷ [], true)

module _ (tools : UrlTools) (uuids : ℕ → ℕ) where
  -- The task that a discovered URL becomes, if it is the page's origin.
  unfoldable pub child_task : ℕ → Fenced → String → ℕ → Task
  unfolding new_task
  child_task now f original accepted =
      let normalized = tools.normalize_url original in
      new_task now (uuids accepted) f.task.job_id original normalized (tools.url_hash normalized)
        (tools.origin_key normalized) (f.task.depth + 1) (f.job.next_discovery_seq + accepted)
        (some f.task.id) f.task.max_attempts (required_capabilities f.job.config)

  -- `not normalized or discovered_origin != task["origin_key"]`
  abbrev pub is_foreign : Fenced → String → Bool
  is_foreign f original =
      let normalized = tools.normalize_url original in
      str_eq normalized "" || not (str_eq (tools.origin_key normalized) f.task.origin_key)

  abbrev pub count_inserted : ℕ → List Task × Bool → List Task × ℕ
  count_inserted accepted (tasks, inserted) = (tasks, if inserted then accepted + 1 else accepted)

  -- One round of the loop over the URLs. After `break` every later round is skipped too.
  unfoldable pub discover_url : ℕ → Fenced → ℕ → String → List Task → ℕ → Result (List Task × ℕ)
  unfolding child_task insert_task
  discover_url now f remaining original tasks accepted =
      if leb remaining accepted || is_foreign f original then ok (tasks, accepted) else do
        r ← insert_task tasks (child_task now f original accepted)
        ok (count_inserted accepted r)

  unfoldable pub discover_urls :
      ℕ → Fenced → ℕ → List String → List Task → ℕ → Result (List Task × ℕ)
  unfolding discover_url
  discover_urls now f remaining [] tasks accepted = ok (tasks, accepted)
  discover_urls now f remaining (url ∷ urls) tasks accepted = do
    r ← discover_url now f remaining url tasks accepted
    discover_urls now f remaining urls r.0 r.1

  unfoldable pub count_discovered : ℕ → ℕ → Job → Job
  count_discovered accepted seq j = record j {
    discovered_count = j.discovered_count + accepted;
    next_discovery_seq = seq;
  }

  abbrev pub with_discovered : Db → Fenced → List Task × ℕ → Db × ℕ
  with_discovered db f (tasks, accepted) = (
    if accepted == 0 then record db { tasks = tasks } else record db {
      tasks = tasks;
      jobs =
          update_where (job_named f.task.job_id)
            (count_discovered accepted (f.job.next_discovery_seq + accepted)) db.jobs;
    },
    accepted,
  )

  -- `_insert_discovered`
  unfoldable pub insert_discovered : Db → ℕ → Fenced → List String → Result (Db × ℕ)
  unfolding discover_urls count_discovered
  insert_discovered db now f urls =
      let remaining = f.job.max_pages - f.job.discovered_count in
      if ltb f.job.config.max_depth (f.task.depth + 1) || remaining == 0
      then ok (db, 0)
      else do r ← discover_urls now f remaining urls db.tasks 0; ok (with_discovered db f r)
