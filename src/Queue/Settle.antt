-- ===== src/Queue/Settle.antt =====
-- The helpers of app/crawl/repository.py that end a lease: `_fenced_task`, `_release_lease`,
-- `_finish_attempt`, `_charge_download`, `_drain_unleased`, `_enforce_failure_limit`,
-- `_terminalize` and `_reject_inactive_lease`.
use crawltrove.Base.{
  ℕ, ◌+◌, ◌-◌, min, String, Bool, false, Option, none, some, List, [], ◌∷◌, ◌++◌, ◌&&◌, ℤ, pos_part,
  if◌then◌else◌, str_eq, str_append, ◌==◌, leb, is_some_eq, or_else, update_where, delete_where,
  find_where, count_where,
}
use crawltrove.Queue.States.{permanent_failed, budget, is_leased, is_unleased}
use crawltrove.Queue.Rows.{Job, Task, Attempt, Amount, OriginLease, EventMetadata, Db}
use crawltrove.Queue.Ledger.{job_named}

-- `int(metadata.get(key, 0))`: the number, or a value that `int` refuses.
pub data Count : Type 0 where
  missing : Count
  count : ℤ → Count
  malformed : Count

-- The keys of a result's metadata that the queue reads.
pub record Metadata : Type 0 where
  pub engine : Option String
  pub provider : Option String
  pub reason : Option String
  pub error_code : Option String
  pub downloaded_bytes : Count
  pub screenshot_bytes : Count

abbrev pub no_metadata : Metadata
no_metadata = record {
  engine = none;
  provider = none;
  reason = none;
  error_code = none;
  downloaded_bytes = missing;
  screenshot_bytes = missing;
}

-- A task read under its fence, with its job. The caller goes on with this copy.
pub record Fenced : Type 0 where
  pub task : Task
  pub job : Job

-- t.state = 'leased' AND t.lease_token = $2
abbrev pub holds : ℕ → ℕ → Task → Bool
holds id token t = t.id == id && is_leased t.state && is_some_eq t.lease_token token

abbrev pub paired : Task → Option Job → Option Fenced
paired t none = none
paired t (some j) = some (record { task = t; job = j })

abbrev pub with_job : Db → Option Task → Option Fenced
with_job db none = none
with_job db (some t) = paired t (find_where (job_named t.job_id) db.jobs)

unfoldable pub fenced_task : Db → ℕ → ℕ → Option Fenced
fenced_task db id token = with_job db (find_where (holds id token) db.tasks)

abbrev pub deadline_expired : ℕ → Fenced → Bool
deadline_expired now f = leb f.job.deadline_at now

abbrev pub log_event : Db → ℕ → Option ℕ → String → EventMetadata → Db
log_event db job task name meta = record db {
  events = db.events ++ record { job_id = job; task_id = task; event = name; metadata = meta } ∷ [];
}

-- GREATEST(0, reserved - $2) on both budgets
unfoldable pub release_budget : Task → Job → Job
release_budget t j = record j {
  reserved_bytes = j.reserved_bytes - t.byte_budget_reserved;
  reserved_artifact_bytes = j.reserved_artifact_bytes - t.artifact_budget_reserved;
}

-- `t` holds its token: the DELETE's `lease_token = $2` with `$2` NULL matches no row.
abbrev pub is_lease_of : Task → OriginLease → Bool
is_lease_of t l = l.task_id == t.id && is_some_eq t.lease_token l.lease_token

-- `_release_lease`
unfoldable pub release_lease : Db → Task → Db
unfolding release_budget
release_lease db t = record db {
  jobs = update_where (job_named t.job_id) (release_budget t) db.jobs;
  leases = delete_where (is_lease_of t) db.leases;
}

abbrev pub counted : Count → ℕ
counted missing = 0
counted (count n) = pos_part n
counted malformed = 0

-- `_actual_bytes`
unfoldable pub actual_bytes : Task → Metadata → ℕ
actual_bytes t m = min t.byte_budget_reserved (counted m.downloaded_bytes)

-- Python's `a or b` on optional texts
abbrev pub py_or : Option String → Option String → Option String
py_or none p = p
py_or (some s) p = if str_eq s "" then p else some s

abbrev pub coalesce_route : Option String → String → String
coalesce_route none r = r
coalesce_route (some s) r = s

abbrev pub is_attempt : Task → Attempt → Bool
is_attempt t a = a.task_id == t.id && a.attempt_number == t.attempt_count

abbrev pub byte_costs : ℕ → ℕ → List Amount
byte_costs downloaded artifacts =
    record { meter = "downloaded_bytes"; value = downloaded }
    ∷ record { meter = "artifact_bytes"; value = artifacts }
    ∷ []

-- `_finish_attempt`
unfoldable pub finish_attempt : Db → ℕ → Task → String → Metadata → ℕ → ℕ → Db
finish_attempt db now t outcome m downloaded artifacts = record db {
  attempts =
      update_where (is_attempt t)
        (λ a. record a {
          route = coalesce_route m.engine a.route;
          provider = or_else m.provider a.provider;
          finished_at = some now;
          duration_ms = some (now - a.started_at);
          actual_cost = byte_costs downloaded artifacts;
          outcome = some outcome;
          error_code = py_or m.reason m.error_code;
        })
        db.attempts;
}

unfoldable pub add_download : ℕ → Job → Job
add_download n j = record j { downloaded_bytes = j.downloaded_bytes + n }

-- `_charge_download`
unfoldable pub charge_download : Db → Task → ℕ → Db
unfolding add_download
charge_download db t n =
    if n == 0
    then db
    else record db { jobs = update_where (job_named t.job_id) (add_download n) db.jobs }

abbrev pub is_queued_of : ℕ → Task → Bool
is_queued_of job t = t.job_id == job && is_unleased t.state

unfoldable pub drain_task : ℕ → String → Task → Task
drain_task now reason t = record t {
  state = permanent_failed;
  error_class = some budget;
  error_code = some reason;
  lease_owner = none;
  lease_token = none;
  lease_expires_at = none;
  byte_budget_reserved = 0;
  artifact_budget_reserved = 0;
  updated_at = now;
  finished_at = some now;
}

unfoldable pub count_drained : ℕ → String → Job → Job
count_drained n reason j = record j {
  terminal_count = j.terminal_count + n;
  failed_count = j.failed_count + n;
  terminal_reason = some reason;
}

-- `_drain_unleased`
unfoldable pub drain_unleased : Db → ℕ → ℕ → String → Db
unfolding drain_task count_drained
drain_unleased db now job reason =
    let n = count_where (is_queued_of job) db.tasks in
    let tasks' = update_where (is_queued_of job) (drain_task now reason) db.tasks in
    if n == 0
    then record db { tasks = tasks' }
    else log_event
        (record db {
          tasks = tasks';
          jobs = update_where (job_named job) (count_drained n reason) db.jobs;
        })
        job none (str_append "job_" reason) (EventMetadata.tasks n)

abbrev pub over_limit : Option Job → Bool
over_limit none = false
over_limit (some j) = leb j.config.max_failures j.failed_count

-- `_enforce_failure_limit`
unfoldable pub enforce_failure_limit : Db → ℕ → Task → Db
unfolding drain_unleased
enforce_failure_limit db now t =
    if over_limit (find_where (job_named t.job_id) db.jobs)
    then drain_unleased db now t.job_id "max_failures_exceeded"
    else db
