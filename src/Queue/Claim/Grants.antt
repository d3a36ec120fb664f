-- ===== src/Queue/Claim/Grants.antt =====
-- The rows that a granted claim of app/crawl/repository.py writes.
use crawltrove.Base.{
  ℕ, ◌+◌, ◌-◌, min, String, false, Option, none, some, [], ◌∷◌, ◌++◌, if◌then◌else◌, coalesce,
  update_where,
}
use crawltrove.Queue.States.{running, leased, is_pending_job}
use crawltrove.Queue.Rows.{Job, Task, Origin, OriginLease, Attempt, Db, EventMetadata}
use crawltrove.Queue.Ledger.{job_named, task_named}
use crawltrove.Queue.Settle.{log_event, byte_costs}
use crawltrove.Queue.Claim.Caps.{
  lease_ms, inline_artifact_cap, response_cap, engine_name, provider_name, ClaimedTask,
}
use crawltrove.Queue.Claim.Origins.{origin_named}

-- What a claim may still spend: the remaining budgets, which are at least 0 here, under the caps.
-- Where the source has a negative remainder this is 0, and both refuse the claim.
unfoldable pub byte_allowance : Job → Task → ℕ
byte_allowance j t =
    min (j.max_bytes - j.downloaded_bytes - j.reserved_bytes) (response_cap t.normalized_url)

unfoldable pub artifact_allowance : Job → ℕ
artifact_allowance j =
    min (j.max_artifact_bytes - j.artifact_bytes - j.reserved_artifact_bytes) inline_artifact_cap

unfoldable pub reserve_budget : ℕ → ℕ → Job → Job
reserve_budget bytes artifacts j = record j {
  reserved_bytes = j.reserved_bytes + bytes;
  reserved_artifact_bytes = j.reserved_artifact_bytes + artifacts;
}

unfoldable pub start_job : ℕ → ℕ → ℕ → Job → Job
unfolding reserve_budget
start_job now bytes artifacts j = record (reserve_budget bytes artifacts j) {
  state = if is_pending_job j.state then running else j.state;
  started_at = some (coalesce j.started_at now);
}

unfoldable pub lease_task : ℕ → String → ℕ → ℕ → ℕ → Task → Task
lease_task now worker token bytes artifacts t = record t {
  state = leased;
  lease_owner = some worker;
  lease_token = some token;
  lease_expires_at = some (now + lease_ms);
  byte_budget_reserved = bytes;
  artifact_budget_reserved = artifacts;
  updated_at = now;
}

unfoldable pub start_task : ℕ → String → ℕ → ℕ → ℕ → Task → Task
unfolding lease_task
start_task now worker token bytes artifacts t =
    record (lease_task now worker token bytes artifacts t) {
      attempt_count = t.attempt_count + 1;
      started_at = some (coalesce t.started_at now);
    }

unfoldable pub new_attempt : ℕ → ℕ → String → ℕ → ℕ → Job → Task → Attempt
new_attempt id now worker bytes artifacts j t = record {
  id = id;
  job_id = t.job_id;
  task_id = t.id;
  attempt_number = t.attempt_count + 1;
  route = engine_name j.config.engine;
  provider = some (provider_name j.config.acquisition.provider);
  worker_id = some worker;
  lease_token = none;
  started_at = now;
  finished_at = none;
  duration_ms = none;
  reserved_cost = byte_costs bytes artifacts;
  actual_cost = [];
  outcome = none;
  error_code = none;
  cost_estimated = false;
}

abbrev pub origin_lease : Task → ℕ → ℕ → OriginLease
origin_lease t token now = record {
  origin_key = t.origin_key;
  task_id = t.id;
  lease_token = token;
  expires_at = now + lease_ms;
}

unfoldable pub pace : ℕ → ℕ → Origin → Origin
pace now delay o = record o { next_request_at = now + delay; updated_at = now }

abbrev pub claimed : Task → Job → ℕ → ℕ → ℕ → ClaimedTask
claimed t j token bytes artifacts = record {
  id = t.id;
  job_id = t.job_id;
  url = t.original_url;
  normalized_url = t.normalized_url;
  origin_key = t.origin_key;
  depth = t.depth;
  attempt = t.attempt_count + 1;
  lease_token = token;
  deadline_at = j.deadline_at;
  config = j.config;
  byte_allowance = bytes;
  artifact_allowance = artifacts;
  required_capabilities = t.required_capabilities;
}

-- The writes of a claim that is granted; `token` and `attempt` are the fresh UUIDs.
unfoldable pub grant : Db → ℕ → String → ℕ → ℕ → Task → Job → ℕ → ℕ → Db × Option ClaimedTask
unfolding start_job start_task new_attempt pace
grant db now worker token attempt t j bytes artifacts =
    let leased_db = record db {
      jobs = update_where (job_named t.job_id) (start_job now bytes artifacts) db.jobs;
      tasks = update_where (task_named t.id) (start_task now worker token bytes artifacts) db.tasks;
      attempts = db.attempts ++ new_attempt attempt now worker bytes artifacts j t ∷ [];
      leases = db.leases ++ origin_lease t token now ∷ [];
      origins =
          update_where (origin_named t.origin_key) (pace now j.config.min_delay_ms) db.origins;
    } in
    (
      log_event leased_db t.job_id (some t.id) "task_claimed" EventMetadata.empty,
      some (claimed t j token bytes artifacts),
    )
