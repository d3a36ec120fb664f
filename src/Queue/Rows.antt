-- ===== src/Queue/Rows.antt =====
-- The rows of the durable queue's tables (app/db/migrations/0004_durable_crawl.sql, with the
-- columns of 0007 and 0008 that app/crawl/repository.py uses), and the job's stored configuration
-- (app/crawl/config.py). Times are milliseconds, identifiers are numbers.
use crawltrove.Base.{ℕ, String, Bool, Option, List}
use crawltrove.Queue.States.{TaskState, JobState, CircuitState, ErrorClass, SessionState}

pub data Engine : Type 0 where
  auto http browser : Engine

pub data Provider : Type 0 where
  auto local firecrawl brightdata browserbase : Provider

pub record BrowserbaseBudget : Type 0 where
  pub browser_minutes : ℕ
  pub proxy_bytes : ℕ

-- A meter's amount is a count of the meter's smallest unit.
pub record CreditBudgets : Type 0 where
  pub firecrawl : Option ℕ
  pub brightdata : Option ℕ
  pub browserbase : Option BrowserbaseBudget

pub record AcquisitionConfig : Type 0 where
  pub provider : Provider
  pub max_attempts : ℕ
  pub credit_budgets : CreditBudgets
  pub allow_human_intervention : Bool

-- The fields of CrawlConfig that the queue reads.
pub record CrawlConfig : Type 0 where
  pub url : String
  pub limit : ℕ
  pub max_depth : ℕ
  pub engine : Engine
  pub min_delay_ms : ℕ
  pub max_browser_pages : ℕ
  pub max_failures : ℕ
  pub max_bytes : ℕ
  pub max_artifact_bytes : ℕ
  pub timeout_seconds : ℕ
  pub acquisition : AcquisitionConfig

pub record Job : Type 0 where
  pub id : ℕ
  pub run_id : ℕ
  pub state : JobState
  pub config : CrawlConfig
  pub max_pages : ℕ
  pub max_bytes : ℕ
  pub max_artifact_bytes : ℕ
  pub discovered_count : ℕ
  pub terminal_count : ℕ
  pub succeeded_count : ℕ
  pub failed_count : ℕ
  pub blocked_count : ℕ
  pub downloaded_bytes : ℕ
  pub reserved_bytes : ℕ
  pub artifact_bytes : ℕ
  pub reserved_artifact_bytes : ℕ
  pub browser_page_count : ℕ
  pub next_discovery_seq : ℕ
  pub terminal_reason : Option String
  pub deadline_at : ℕ
  pub cancel_requested_at : Option ℕ
  pub started_at : Option ℕ
  pub finished_at : Option ℕ
  pub idempotency_key : Option String

pub record Task : Type 0 where
  pub id : ℕ
  pub job_id : ℕ
  pub original_url : String
  pub normalized_url : String
  pub url_hash : ℕ
  pub origin_key : String
  pub depth : ℕ
  pub discovery_seq : ℕ
  pub priority : ℕ
  pub discovered_from_task_id : Option ℕ
  pub state : TaskState
  pub available_at : ℕ
  pub attempt_count : ℕ
  pub max_attempts : ℕ
  pub required_capabilities : List String
  pub byte_budget_reserved : ℕ
  pub artifact_budget_reserved : ℕ
  pub lease_owner : Option String
  pub lease_token : Option ℕ
  pub lease_expires_at : Option ℕ
  pub error_class : Option ErrorClass
  pub error_code : Option String
  pub result_id : Option ℕ
  pub started_at : Option ℕ
  pub updated_at : ℕ
  pub finished_at : Option ℕ

pub record Origin : Type 0 where
  pub origin_key : String
  pub next_request_at : ℕ
  pub cooldown_until : Option ℕ
  pub robots_body : Option String
  pub robots_status : Option ℕ
  pub robots_fetched_at : Option ℕ
  pub robots_expires_at : Option ℕ
  pub consecutive_failures : ℕ
  pub circuit_state : CircuitState
  pub circuit_open_until : Option ℕ
  pub updated_at : ℕ

pub record OriginLease : Type 0 where
  pub origin_key : String
  pub task_id : ℕ
  pub lease_token : ℕ
  pub expires_at : ℕ

-- A JSON object of amounts, such as `actual_cost`.
pub record Amount : Type 0 where
  pub meter : String
  pub value : ℕ

pub record Attempt : Type 0 where
  pub id : ℕ
  pub job_id : ℕ
  pub task_id : ℕ
  pub attempt_number : ℕ
  pub route : String
  pub provider : Option String
  pub worker_id : Option String
  pub lease_token : Option ℕ
  pub started_at : ℕ
  pub finished_at : Option ℕ
  pub duration_ms : Option ℕ
  pub reserved_cost : List Amount
  pub actual_cost : List Amount
  pub outcome : Option String
  pub error_code : Option String
  pub cost_estimated : Bool

-- crawl_provider_usage
pub record Usage : Type 0 where
  pub job_id : ℕ
  pub provider : String
  pub meter : String
  pub limit_value : ℕ
  pub reserved_value : ℕ
  pub consumed_value : ℕ

pub record CrawlResult : Type 0 where
  pub id : ℕ
  pub task_id : ℕ
  pub final_url : String
  pub status_code : Option ℕ
  pub title : String
  pub markdown : String
  pub downloaded_bytes : ℕ
  pub artifact_bytes : ℕ

-- The metadata that the queue and the sessions write into an event.
pub data EventMetadata : Type 0 where
  empty : EventMetadata
  error_code : Option String → EventMetadata
  tasks : ℕ → EventMetadata
  retried : ℕ → ℕ → EventMetadata
  session : ℕ → String → EventMetadata
  reason : String → EventMetadata

pub record Event : Type 0 where
  pub job_id : ℕ
  pub task_id : Option ℕ
  pub event : String
  pub metadata : EventMetadata

pub record Run : Type 0 where
  pub id : ℕ
  pub job : ℕ
  pub trigger : String
  pub status : JobState
  pub finished_at : Option ℕ

pub record LiveSession : Type 0 where
  pub id : ℕ
  pub task_id : ℕ
  pub backend : String
  pub worker_id : Option String
  pub state : SessionState
  pub expires_at : ℕ
  pub last_seen_at : Option ℕ
  pub closed_at : Option ℕ

pub record Db : Type 0 where
  pub jobs : List Job
  pub tasks : List Task
  pub origins : List Origin
  pub leases : List OriginLease
  pub attempts : List Attempt
  pub usage : List Usage
  pub results : List CrawlResult
  pub events : List Event
  pub runs : List Run
  pub sessions : List LiveSession
