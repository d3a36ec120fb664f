-- ===== src/Queue/Finish.antt =====
-- The ways a leased task ends or goes back to the queue: `complete_task`, `retry_task`,
-- `fail_task` and `block_robots` of app/crawl/repository.py.
pub mod Circuit
use crawltrove.Base.{
  ℕ, ◌+◌, ◌-◌, ◌*◌, max, String, len, Bool, true, false, Option, none, some, List, [], ◌∷◌, ◌++◌,
  ◌&&◌, ◌||◌, if◌then◌else◌, ◌==◌, ltb, leb, update_where, exists_where,
}
use crawltrove.Queue.States.{
  TaskState, CircuitState, ErrorClass, succeeded, permanent_failed, blocked_robots, retry_wait,
  policy, budget, transport, http, open_circuit,
}
use crawltrove.Queue.Rows.{Job, Task, Origin, CrawlResult, EventMetadata, Db}
use crawltrove.Queue.Results.{Result, ok, ◌>>=◌, ◌>>◌}
use crawltrove.Queue.Ledger.{job_named}
use crawltrove.Queue.Settle.{
  Fenced, Metadata, Count, malformed, counted, no_metadata, fenced_task, log_event, release_lease,
  actual_bytes, finish_attempt, charge_download, drain_unleased,
}
use crawltrove.Queue.Terminal.{is_held, terminalize, when_active}
use crawltrove.Queue.Claim.{origin_named, latest}
use crawltrove.Queue.Discover.{UrlTools, insert_discovered}
use crawltrove.Classify.{FailureDecision}

-- types.TaskResult, with `len(markdown.encode("utf-8"))` as the native `len`
pub record TaskResult : Type 0 where
  pub final_url : String
  pub status_code : Option ℕ
  pub title : String
  pub markdown : String
  pub metadata : Metadata
  pub discovered_urls : List String

abbrev pub is_malformed : Count → Bool
is_malformed malformed = true
is_malformed _ = false

-- One `try` reads both counts, so a malformed one makes both 0.
abbrev pub unreadable : Metadata → Bool
unreadable m = is_malformed m.downloaded_bytes || is_malformed m.screenshot_bytes

unfoldable pub reported_downloaded : Metadata → ℕ
reported_downloaded m = if unreadable m then 0 else counted m.downloaded_bytes

unfoldable pub artifact_size : TaskResult → ℕ
artifact_size r =
    len r.markdown + (if unreadable r.metadata then 0 else counted r.metadata.screenshot_bytes)

unfoldable pub succeed_task : ℕ → ℕ → Task → Task
succeed_task now result t = record t {
  state = succeeded;
  result_id = some result;
  lease_owner = none;
  lease_token = none;
  lease_expires_at = none;
  byte_budget_reserved = 0;
  artifact_budget_reserved = 0;
  updated_at = now;
  finished_at = some now;
}

unfoldable pub count_success : ℕ → ℕ → Job → Job
count_success downloaded artifacts j = record j {
  downloaded_bytes = j.downloaded_bytes + downloaded;
  artifact_bytes = j.artifact_bytes + artifacts;
  terminal_count = j.terminal_count + 1;
  succeeded_count = j.succeeded_count + 1;
}

unfoldable pub close_circuit : ℕ → Origin → Origin
close_circuit now o = record o {
  consecutive_failures = 0;
  circuit_state = CircuitState.closed;
  circuit_open_until = none;
  cooldown_until = none;
  updated_at = now;
}

abbrev pub new_result : ℕ → Task → TaskResult → ℕ → ℕ → CrawlResult
new_result id t r downloaded artifacts = record {
  id = id;
  task_id = t.id;
  final_url = r.final_url;
  status_code = r.status_code;
  title = r.title;
  markdown = r.markdown;
  downloaded_bytes = downloaded;
  artifact_bytes = artifacts;
}

-- The writes after the result's row and the discovered tasks are in.
unfoldable pub settle_success : Db → ℕ → Task → TaskResult → ℕ → ℕ → ℕ → Db
unfolding succeed_task release_lease count_success close_circuit finish_attempt
settle_success db now t r result downloaded artifacts =
    let done = record db { tasks = update_where (is_held t) (succeed_task now result) db.tasks } in
    let freed = release_lease done t in
    let charged = record freed {
      origins = update_where (origin_named t.origin_key) (close_circuit now) freed.origins;
      jobs = update_where (job_named t.job_id) (count_success downloaded artifacts) freed.jobs;
    } in
    log_event (finish_attempt charged now t "succeeded" r.metadata downloaded artifacts) t.job_id
      (some t.id) "task_succeeded" EventMetadata.empty

-- A result that is larger than what its task had reserved.
abbrev pub is_over_bytes : Task → TaskResult → Bool
is_over_bytes t r = ltb t.byte_budget_reserved (reported_downloaded r.metadata)

abbrev pub is_over_budget : Task → TaskResult → Bool
is_over_budget t r = is_over_bytes t r || ltb t.artifact_budget_reserved (artifact_size r)

-- The end of a task whose result is over its budget.
unfoldable pub reject_over_budget : Db → ℕ → Task → Metadata → String → Db
unfolding terminalize charge_download finish_attempt drain_unleased
reject_over_budget db now t m reason =
    let downloaded = actual_bytes t m in
    let ended = terminalize db now t permanent_failed (some budget) (some reason) in
    let charged = charge_download ended t downloaded in
    drain_unleased (finish_attempt charged now t "failed" m downloaded 0) now t.job_id reason

module _ (tools : UrlTools) (uuids : ℕ → ℕ) where
  unfoldable pub store_result : Db → ℕ → Fenced → TaskResult → ℕ → Result (Db × Bool)
  unfolding insert_discovered settle_success
  store_result db now f r result =
      let downloaded = actual_bytes f.task r.metadata in
      let artifacts = artifact_size r in
      if exists_where (λ x. x.task_id == f.task.id) db.results then ok (db, false) else do
        found ←
            insert_discovered tools uuids
              (record db {
                results = db.results ++ new_result result f.task r downloaded artifacts ∷ [];
              })
              now f r.discovered_urls
        ok (settle_success found.0 now f.task r result downloaded artifacts, true)

  unfoldable pub complete_active : Db → ℕ → TaskResult → ℕ → Fenced → Result (Db × Bool)
  unfolding store_result reject_over_budget reported_downloaded artifact_size
  complete_active db now r result f =
      if is_over_budget f.task r
      then ok (
        reject_over_budget db now f.task r.metadata (
            if is_over_bytes f.task r
            then "byte_budget_exhausted"
            else "artifact_budget_exhausted"),
        false,
      )
      else store_result db now f r result

  -- `complete_task`; `result` is the fresh UUID of its row
  unfoldable pub complete_task : Db → ℕ → ℕ → ℕ → TaskResult → ℕ → Result (Db × Bool)
  unfolding complete_active
  complete_task db now id token r result =
      when_active db now (fenced_task db id token) false (complete_active db now r result)

-- The end of a task that failed for good, with the bytes that it cost.
unfoldable pub fail_leased : Db → ℕ → Task → FailureDecision → Metadata → Db
unfolding terminalize charge_download finish_attempt
fail_leased db now t decision m =
    let downloaded = actual_bytes t m in
    let ended =
      terminalize db now t permanent_failed (some decision.error_class)
        (some decision.error_code) in
    finish_attempt (charge_download ended t downloaded) now t "failed" m downloaded 0

unfoldable pub requeue_task : ℕ → ℕ → ErrorClass → String → Task → Task
requeue_task now available cls code t = record t {
  state = retry_wait;
  available_at = available;
  error_class = some cls;
  error_code = some code;
  lease_owner = none;
  lease_token = none;
  lease_expires_at = none;
  byte_budget_reserved = 0;
  artifact_budget_reserved = 0;
  updated_at = now;
}

abbrev pub is_outage : ErrorClass → Bool
is_outage transport = true
is_outage http = true
is_outage _ = false

abbrev pub circuit_threshold : ℕ
circuit_threshold = 5

-- The origin after a failure that will be tried again.
unfoldable pub cool_down : ℕ → ℕ → ErrorClass → Origin → Origin
cool_down now available cls o =
    let failures = o.consecutive_failures + (if is_outage cls then 1 else 0) in
    let trips = leb circuit_threshold failures in
    record o {
      next_request_at = max o.next_request_at available;
      consecutive_failures = failures;
      circuit_state = if trips then open_circuit else o.circuit_state;
      circuit_open_until = if trips then some (now + 300 * 1000) else o.circuit_open_until;
      cooldown_until = latest o.cooldown_until (some available);
      updated_at = now;
    }

unfoldable pub retry_active : Db → ℕ → FailureDecision → ℕ → Metadata → Fenced → Result (Db × Bool)
unfolding fail_leased requeue_task release_lease charge_download cool_down finish_attempt
retry_active db now decision available m f =
    let t = f.task in
    let downloaded = actual_bytes t m in
    if leb t.max_attempts t.attempt_count
    then ok (fail_leased db now t decision m, true)
    else (let queued = record db {
      tasks =
          update_where (is_held t)
            (requeue_task now available decision.error_class decision.error_code) db.tasks;
    } in
        let charged = charge_download (release_lease queued t) t downloaded in
        let cooled = record charged {
          origins =
              update_where (origin_named t.origin_key)
                (cool_down now available decision.error_class) charged.origins;
        } in
        let logged =
          log_event cooled t.job_id (some t.id) "task_retry_wait"
            (EventMetadata.error_code (some decision.error_code)) in
        ok (finish_attempt logged now t "retry" m downloaded 0, true))

-- `retry_task`
unfoldable pub retry_task : Db → ℕ → ℕ → ℕ → FailureDecision → ℕ → Metadata → Result (Db × Bool)
unfolding retry_active
retry_task db now id token decision available m =
    when_active db now (fenced_task db id token) false (retry_active db now decision available m)

-- `fail_task`
unfoldable pub fail_task : Db → ℕ → ℕ → ℕ → FailureDecision → Metadata → Result (Db × Bool)
unfolding fail_leased
fail_task db now id token decision m =
    when_active db now (fenced_task db id token) false
      λ f. ok (fail_leased db now f.task decision m, true)

-- `block_robots`
unfoldable pub block_robots : Db → ℕ → ℕ → ℕ → String → Result (Db × Bool)
unfolding terminalize
block_robots db now id token code =
    when_active db now (fenced_task db id token) false
      λ f. ok (terminalize db now f.task blocked_robots (some policy) (some code), true)
