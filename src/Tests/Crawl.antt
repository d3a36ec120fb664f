-- ===== src/Tests/Crawl.antt =====
-- A crawl of one page: submitted, claimed and completed.
use crawltrove.Base.{
  select_where, sum_of, List, pos, arith, ℕ, ◌+◌, true, false, none, some, [], ◌∷◌, ◌≡◌, refl, len,
  Row, All, inl, least_where, find_where, exists_where, update_where, delete_where,
}
use crawltrove.Queue.States.{leased, transport}
use crawltrove.Queue.Rows.{Task, Db, CrawlConfig, Engine, Provider}
use crawltrove.Queue.Settle.{
  charge_download, enforce_failure_limit, Fenced, fenced_task, release_lease, finish_attempt,
  actual_bytes, no_metadata,
}
use crawltrove.Queue.Discover.{
  UrlTools, required_capabilities, insert_discovered, discover_urls, discover_url, child_task,
  insert_task, new_task,
}
use crawltrove.Queue.Results.{ok}
use crawltrove.Queue.Meters.{
  subset, native_cost, checked, contains, meters_of, normalized, value_of, amount_of, reported,
}
use crawltrove.Queue.Ledger.{settle_meter, settle_usage, settle_fits}
use crawltrove.Queue.Attempts.{
  finish_acquisition_attempt, finish_active, reserve_acquisition_attempt, reserve_active, has_room,
  reserve_usage, reserve_amount, reserved_attempt, exceeds, settle_usage_rows, record_outcome,
}
use crawltrove.Queue.Fence.Once.{NotHeld}
use crawltrove.Queue.Terminal.{reject_inactive_lease}
use crawltrove.Queue.Ledger.Limits.{HasLedger}
use crawltrove.Queue.Meters.{Reported, number}
use crawltrove.Queue.Claim.{
  ClaimedTask, claim_task, ensure_origin, claim_found, claim_origin, claim_budget, response_cap,
  grant, start_task, lease_task, start_job, reserve_budget, byte_allowance, artifact_allowance,
}
use crawltrove.Queue.Jobs.{provider_usage_rows, Fresh, submit_job, insert_job, new_job, keyed_job}
use crawltrove.Queue.Finish.{
  TaskResult, complete_task, complete_active, store_result, settle_success, artifact_size,
  reported_downloaded,
}
use crawltrove.Queue.Finish.{fail_task, fail_leased}
use crawltrove.Queue.Terminal.{
  terminalize, close_task, end_task, count_terminal, cancel_run, limit_failures,
}
use crawltrove.Queue.Retry.{
  retry_failures, retryable_rows, unique, sort_by_seq, insert_by_seq, limit_rows, retry_config,
}
use crawltrove.History.{Call, run, Reachable, empty_db, start, next}

-- URLs as they are, on one origin
abbrev pub tools : UrlTools
tools = record {
  normalize_url = λ u. u;
  origin_key = λ u. "https://example.com";
  url_hash = λ u. len u;
}

abbrev pub uuids : ℕ → ℕ
uuids n = 100 + n

abbrev pub config : CrawlConfig
config = record {
  url = "https://example.com/";
  limit = 5;
  max_depth = 2;
  engine = Engine.auto;
  min_delay_ms = 1000;
  max_browser_pages = 2;
  max_failures = 3;
  max_bytes = 1000;
  max_artifact_bytes = 2000;
  timeout_seconds = 3600;
  acquisition = record {
    provider = Provider.auto;
    max_attempts = 2;
    credit_budgets = record { firecrawl = some 5; brightdata = none; browserbase = none };
    allow_human_intervention = false;
  };
}

abbrev pub fresh : Fresh
fresh = record { job = 1; task = 2; run = 3 }

abbrev pub submitted : Db
submitted = run tools empty_db 0 (Call.submit fresh config (some "key") "api")

abbrev pub claimed : Db
claimed = run tools submitted 10 (Call.claim "worker" ("http" ∷ []) 7 8)

abbrev pub result : TaskResult
result = record {
  final_url = "https://example.com/";
  status_code = some 200;
  title = "Home";
  markdown = "# Home";
  metadata = no_metadata;
  discovered_urls = "https://example.com/a" ∷ "https://example.com/about" ∷ [];
}

abbrev pub completed : Db
completed = run tools claimed 20 (Call.complete 2 7 result 9 uuids)

pub submitted-Reachable : Reachable tools submitted
submitted-Reachable = next empty_db 0 (Call.submit fresh config (some "key") "api") start

pub claimed-Reachable : Reachable tools claimed
claimed-Reachable = next submitted 10 (Call.claim "worker" ("http" ∷ []) 7 8) submitted-Reachable

pub completed-Reachable : Reachable tools completed
completed-Reachable = next claimed 20 (Call.complete 2 7 result 9 uuids) claimed-Reachable

-- A page that the first one discovered is completed too, and discovers another page.
abbrev second_uuids : ℕ → ℕ
second_uuids n = 200 + n

abbrev second_result : TaskResult
second_result = record result { discovered_urls = "https://example.com/blog" ∷ [] }

abbrev both_claimed : Db
both_claimed = run tools completed 5000 (Call.claim "worker" ("http" ∷ []) 17 18)

abbrev pub both_completed : Db
both_completed = run tools both_claimed 5010 (Call.complete 100 17 second_result 19 second_uuids)

pub both_completed-Reachable : Reachable tools both_completed
both_completed-Reachable =
    next both_claimed 5010 (Call.complete 100 17 second_result 19 second_uuids)
      (next completed 5000 (Call.claim "worker" ("http" ∷ []) 17 18) completed-Reachable)

task_ids : List Task → List ℕ
task_ids [] = []
task_ids (t ∷ ts) = t.id ∷ task_ids ts

both_ids : task_ids both_completed.tasks ≡ 2 ∷ 100 ∷ 101 ∷ 200 ∷ []
unfolding task_ids claim_task least_where submit_job find_where exists_where ensure_origin subset
    required_capabilities claim_found claim_origin claim_budget response_cap grant update_where
    complete_task fenced_task reject_inactive_lease complete_active store_result insert_discovered
    discover_urls discover_url child_task insert_task settle_success release_lease delete_where
    finish_attempt actual_bytes artifact_size reported_downloaded insert_job start_task lease_task
    start_job reserve_budget new_task new_job byte_allowance artifact_allowance keyed_job
both_ids = refl

-- the page fails for good, and then is tried again in a job of its own
abbrev pub failed : Db
failed = run tools claimed 20 (
    Call.fail 2 7 (record { retry = false; error_class = transport; error_code = "timeout" })
      no_metadata)

pub failed-Reachable : Reachable tools failed
failed-Reachable =
    next claimed 20
      (Call.fail 2 7 (record { retry = false; error_class = transport; error_code = "timeout" })
        no_metadata)
      claimed-Reachable

abbrev pub fresh_retry : Fresh
fresh_retry = record { job = 11; task = 12; run = 13 }

abbrev pub leased_task : Task
leased_task = record {
  id = 2;
  job_id = 1;
  original_url = "https://example.com/";
  normalized_url = "https://example.com/";
  url_hash = 20;
  origin_key = "https://example.com";
  depth = 0;
  discovery_seq = 0;
  priority = 0;
  discovered_from_task_id = none;
  state = leased;
  available_at = 0;
  attempt_count = 1;
  max_attempts = 2;
  required_capabilities = "http" ∷ [];
  byte_budget_reserved = 1000;
  artifact_budget_reserved = 2000;
  lease_owner = some "worker";
  lease_token = some 7;
  lease_expires_at = some 120010;
  error_class = none;
  error_code = none;
  result_id = none;
  started_at = some 10;
  updated_at = 10;
  finished_at = none;
}

pub claimed-Row : Row leased_task claimed.tasks
unfolding claim_task least_where submit_job find_where exists_where ensure_origin subset
    required_capabilities claim_found claim_origin claim_budget response_cap grant update_where
claimed-Row = inl refl

pub claimed-NotHeld : All (NotHeld 2 6) claimed.tasks
unfolding claim_task least_where submit_job find_where exists_where ensure_origin subset
    required_capabilities claim_found claim_origin claim_budget response_cap grant update_where
claimed-NotHeld = ((λ e f g. cc), tt)

pub complete_ok : complete_task tools uuids claimed 20 2 7 result 9 ≡ ok (completed, true)
unfolding claim_task least_where submit_job find_where exists_where ensure_origin subset
    required_capabilities claim_found claim_origin claim_budget response_cap grant update_where
    complete_task fenced_task reject_inactive_lease complete_active store_result insert_discovered
    discover_urls discover_url child_task insert_task settle_success release_lease delete_where
    finish_attempt actual_bytes artifact_size reported_downloaded insert_job start_task lease_task
    start_job reserve_budget new_task new_job byte_allowance artifact_allowance keyed_job
complete_ok = refl

-- what the worker was granted
abbrev pub grant_of_page : ClaimedTask
grant_of_page = record {
  id = 2;
  job_id = 1;
  url = "https://example.com/";
  normalized_url = "https://example.com/";
  origin_key = "https://example.com";
  depth = 0;
  attempt = 1;
  lease_token = 7;
  deadline_at = 3600000;
  config = config;
  byte_allowance = 1000;
  artifact_allowance = 2000;
  required_capabilities = "http" ∷ [];
}

pub claim_ok : (claim_task submitted 10 "worker" ("http" ∷ []) 7 8).1 ≡ some grant_of_page
unfolding claim_task least_where submit_job find_where exists_where ensure_origin subset
    required_capabilities claim_found claim_origin claim_budget response_cap grant update_where
claim_ok = refl

pub claimed-HasLedger : HasLedger claimed
unfolding claim_task least_where submit_job find_where exists_where ensure_origin subset
    required_capabilities claim_found claim_origin claim_budget response_cap grant update_where
    insert_job provider_usage_rows
claimed-HasLedger = record { keys = (tt, tt); within = (omega arith, tt) }

abbrev pub one_credit : List Reported
one_credit = record { meter = "credits"; value = number (pos 1) } ∷ []

abbrev pub reserved : Db
reserved = run tools claimed 20 (Call.reserve_attempt 2 7 30 "firecrawl_scrape" one_credit)

abbrev pub finished : Db
finished = run tools reserved 30 (Call.finish_attempt 30 7 "success" one_credit false)

pub finish_ok :
    finish_acquisition_attempt reserved 30 30 7 "success" one_credit false ≡ ok (finished, true)
unfolding claim_task least_where submit_job find_where exists_where ensure_origin subset
    required_capabilities claim_found claim_origin claim_budget response_cap grant update_where
    fenced_task reject_inactive_lease insert_job start_task lease_task start_job reserve_budget
    new_task new_job byte_allowance artifact_allowance keyed_job finish_acquisition_attempt
    finish_active reserve_acquisition_attempt reserve_active has_room reserve_usage reserve_amount
    reserved_attempt native_cost checked contains meters_of normalized value_of amount_of
    provider_usage_rows exceeds settle_usage_rows settle_meter settle_usage settle_fits
    record_outcome reported sum_of
finish_ok = refl

abbrev pub page : Fenced
page = record { task = leased_task; job = new_job 0 1 3 config none }

retry_ok : (retry_failures tools uuids failed 40 1 (2 ∷ []) fresh_retry).1 ≡ ok 11
unfolding claim_task least_where submit_job find_where exists_where ensure_origin subset
    required_capabilities claim_found claim_origin claim_budget response_cap grant update_where
    fenced_task reject_inactive_lease insert_task release_lease delete_where finish_attempt
    actual_bytes insert_job start_task lease_task start_job reserve_budget new_task new_job
    byte_allowance artifact_allowance keyed_job fail_task fail_leased terminalize retry_failures
    retryable_rows unique sort_by_seq insert_by_seq limit_rows retry_config select_where close_task
    end_task count_terminal cancel_run limit_failures enforce_failure_limit charge_download sum_of
retry_ok = refl
