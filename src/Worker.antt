-- ===== src/Worker.antt =====
-- `CrawlWorker` of app/crawl/worker.py: what a task's run calls, and how a run ends. The repository,
-- the proxy pool, the router, the session handler and the robots.txt fetch are a world with a state
-- of its own, which the heartbeats in the background may change between calls.
pub mod Failure
pub mod Policy
pub mod Run
pub mod Durable
use crawltrove.Base.{ℕ, String, Bool, Option, none, some, List, [], ◌∷◌, ◌++◌}
use crawltrove.Classify.{FailureDecision}
use crawltrove.Robots.{RobotFileParser}
use crawltrove.Queue.Settle.{Metadata}
use crawltrove.Queue.Claim.{ClaimedTask}
use crawltrove.Queue.Finish.{TaskResult}

-- An exception, by `is_transient_exception`.
pub data Fault : Type 0 where
  transient : Fault
  defect : Fault

-- What a call of another component does.
pub data Reply (A : Type 0) : Type 0 where
  replies : A → Reply A
  throws : Fault → Reply A

-- What the run did for its task: it asked the router for the page, the repository answered a call, a
-- session took the task, or the lease was seen to be lost.
pub data Answer : Type 0 where
  completes : Answer
  retries : Answer
  fails : Answer
  blocks : Answer
  parks : Answer
  beats : Answer
  loses : Answer
  acquires : Answer

-- The fields of CrawlConfig that the worker reads.
pub record WorkerConfig : Type 0 where
  pub respect_robots : Bool
  pub robots_fail_open : Bool
  pub min_delay_ms : ℕ

-- ProviderFailure, with the Retry-After in milliseconds
pub record ProviderFailure : Type 0 where
  pub code : String
  pub retryable : Bool
  pub status_code : Option ℕ
  pub retry_after : Option ℕ

-- The TaskResult of the router, and the status of its metadata.
pub record Page : Type 0 where
  pub final_url : String
  pub status_code : Option ℕ
  pub title : String
  pub markdown : String
  pub metadata : Metadata
  pub metadata_status : Option ℕ
  pub discovery_html : String

-- What is known when `asyncio.wait` on the router's task returns: it is not done, or how it ended.
pub data Waited : Type 0 where
  unfinished : Waited
  acquired : Page → Waited
  needs_human : String → Waited
  provider_failed : ProviderFailure → Waited
  crashed : Fault → Waited

-- the robots columns of crawl_origins
pub record RobotsCache : Type 0 where
  pub body : Option String
  pub expires_at : Option ℕ

-- The response to the robots.txt request; `retry_at` is what parse_retry_after makes of its header.
pub record RobotsReply : Type 0 where
  pub status : Option ℕ
  pub html : String
  pub retry_at : Option ℕ

pub record World (S : Type 0) : Type 0 where
  pub now : S → ℕ
  -- `lease_lost.is_set()`
  pub is_lost : S → Bool
  -- what `random.random()` draws
  pub sample : S → ℕ
  pub claim : S → S × Reply (Option ClaimedTask)
  pub heartbeat : ClaimedTask → S → S × Reply Bool
  pub retry : ClaimedTask → FailureDecision → ℕ → Metadata → S → S × Reply Bool
  pub fail : ClaimedTask → FailureDecision → Metadata → S → S × Reply Bool
  pub block : ClaimedTask → String → S → S × Reply Bool
  pub complete : ClaimedTask → TaskResult → S → S × Reply Bool
  pub robots_cache : ClaimedTask → S → S × Reply (Option RobotsCache)
  pub robots_fetch : ClaimedTask → S → S × Reply (Option RobotsReply)
  pub store_robots : ClaimedTask → String → Option ℕ → S → S × Reply Unit
  pub sleep : ℕ → S → S × Reply Unit
  pub select_proxy : ClaimedTask → S → S × Reply (Option String)
  pub start_proxy : ClaimedTask → String → S → S × Reply Unit
  pub mark_failure : ClaimedTask → String → String → S → S × Reply Bool
  pub close_proxy : String → S → S × Reply Unit
  pub release_proxy : ClaimedTask → S → S × Reply Unit
  pub acquire : ClaimedTask → S → S × Waited
  pub start_session : ClaimedTask → S → S × Reply Bool
  pub discover : Page → String → S → S × Reply (List String)
  -- `heartbeat.cancel()` and `await heartbeat`
  pub stop_heartbeat : S → S × Reply Unit

-- How the worker was built, and the code that reads a configuration, a robots.txt and a URL.
pub record Setup : Type 0 where
  pub capabilities : List String
  pub has_robots_cache : Bool
  pub has_proxy_pool : Bool
  pub has_router : Bool
  pub has_session_handler : Bool
  -- `CrawlConfig.model_validate`, `none` where it raises
  pub read_config : ClaimedTask → Option WorkerConfig
  pub parse_robots : String → RobotFileParser
  pub quoted_path : String → String

-- The world, what the run did for its task so far, its variable `proxy_lease` and the worker's own.
pub record State (S : Type 0) : Type 0 where
  pub world : S
  pub answers : List Answer
  pub proxy_lease : Option String
  pub active_lease : Option (ℕ × ℕ)
  pub active_proxy_lease : Option String

-- How a statement ends: with a value, with the function's return, or with an exception.
pub data Step (A : Type 0) : Type 0 where
  goes : A → Step A
  returns : Step A
  raises : Fault → Step A

abbrev pub Body : Type 0 → Type 0 → Type 0
Body S A = State S → State S × Step A

module _ {S : Type 0} where
  abbrev pub next : {A B : Type 0} → State S × Step A → (A → Body S B) → State S × Step B
  next (st, goes a) f = f a st
  next (st, returns) f = (st, returns)
  next (st, raises e) f = (st, raises e)

  unfoldable pub pure : {A : Type 0} → A → Body S A
  pure a st = (st, goes a)

  unfoldable pub throw : {A : Type 0} → Fault → Body S A
  throw e st = (st, raises e)

  unfoldable pub reads : {A : Type 0} → (State S → A) → Body S A
  reads f st = (st, goes (f st))

  -- An assignment to a variable.
  unfoldable pub assigns : (State S → State S) → Body S Unit
  assigns f st = (f st, goes tt)

  abbrev pub replied : {A : Type 0} → State S → Reply A → State S × Step A
  replied st (replies a) = (st, goes a)
  replied st (throws e) = (st, raises e)

  -- `await` of a call
  unfoldable pub call : {A : Type 0} → (S → S × Reply A) → Body S A
  call f st = let r = f st.world in replied (record st { world = r.0 }) r.1

  -- `asyncio.wait` on the router's task
  unfoldable pub waits : (S → S × Waited) → Body S Waited
  waits f st = let r = f st.world in (record st { world = r.0 }, goes r.1)

  -- The run has done something for its task; it goes on.
  unfoldable pub note : Answer → Body S Unit
  note e st = (record st { answers = st.answers ++ e ∷ [] }, goes tt)

  -- `return`
  unfoldable pub leave : {A : Type 0} → Body S A
  leave st = (st, returns)

infixl 5 ◌>>=◌ ◌>>◌
unfoldable pub ◌>>=◌ : {S A B : Type 0} → Body S A → (A → Body S B) → Body S B
(m >>= f) st = next (m st) f

abbrev pub ◌>>◌ : {S A B : Type 0} → Body S A → Body S B → Body S B
m >> k = m >>= λ _. k
