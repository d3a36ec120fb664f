-- ===== src/Lib.antt =====
-- CrawlTrove: the durable crawl queue of a self-hosted web crawler, the worker that runs its tasks,
-- the human sessions that park them, the router and the proxy pool through which pages are
-- acquired, and the chunks that pages are cut into.
--
-- A crawl is a job (crawl_jobs) of tasks (crawl_tasks), one for each URL. Workers claim a task
-- under a lease with a token, fetch the page, and complete, retry, fail or block the task under
-- that token; the scheduler reaps leases that ran out and finalizes jobs with no task left. A claim
-- reserves bytes of the job's budgets and takes the only lease of the task's origin; the end of the
-- lease gives both back. Attempts at paid providers reserve and consume a ledger of native meters.
-- A task that needs a human is parked in a session and resumed later under a new lease. All of this
-- state is the tables of one PostgreSQL database, and each operation but retry_failures is one
-- transaction on them.
--
-- The worker claims a task, asks the site's robots.txt, has the router acquire the page and
-- completes the task, or records the failure; a heartbeat in the background tells it when the lease
-- is lost. The router acquires one page: it tries the routes of its registry in turn, reserves an
-- attempt in the queue's ledger before each and finishes it after, and escalates to paid routes
-- only after a classified block. Routes through an owned proxy take a node of the pool. The
-- Markdown of stored pages is cut into overlapping chunks for a corpus.
--
-- Which file models which part:
-- - Base: Boolean tests, the table statements (UPDATE, DELETE, SELECT, ORDER BY … LIMIT 1, sums) as
--   functions on lists, predicates on rows and their laws, Python's methods on texts.
-- - Classify: app/crawl/classify.py (classify_failure, backoff_seconds); Classify.Retry its laws.
-- - Robots: app/crawl/policy.py (robots_decision, robots_outcome, classify_robots_response).
-- - Queue: app/crawl/repository.py. States and Rows are the columns of app/db/migrations/0004, 0007
--   and 0008 and the fields of app/crawl/config.py and app/crawl/types.py; Results is a transaction
--   that may raise and roll back; Meters is _native_cost with app/acquisition/providers.py; Ledger
--   is _reconcile_abandoned_acquisition_attempts; Settle and Terminal are the helpers that end a
--   lease; Claim is claim_task; Discover is _insert_discovered; Finish is complete_task,
--   retry_task, fail_task and block_robots; Lease is heartbeat, reserve_browser_navigation,
--   reap_expired_leases and resume_live_session; Jobs is submit_job, request_cancel, reconcile_job
--   and finalize_jobs; Retry is retry_failures, a call of submit_job and a second transaction;
--   Attempts is reserve_acquisition_attempt and finish_acquisition_attempt; RobotsCache is
--   robots_cache and store_robots. Fence, Frame, Budget and Exclusive hold the proofs, with the
--   operations in children.
-- - Sessions: app/acquisition/sessions.py.
-- - History: all transactions as steps of one store, the two of retry_failures as one step, and
--   what holds after any sequence of them.
-- - Acquisition: Registry is app/acquisition/registry.py; Router is app/acquisition/router.py, with
--   Acquire the loop over the routes on any repository and adapters, and Durable the same loop on
--   the queue; Proxy is app/acquisition/proxy.py, with Pool the class ProxyPool.
-- - Worker: app/crawl/worker.py. Run is run_once on any world, with statements that go on, return
--   or raise; Failure is _record_failure and what gives a task up, Policy is _robots_allowed;
--   Durable is the same on the queue and the router, with OwnedSessionRunner.start of
--   app/acquisition/owned_session.py. A run logs, in its state, when it asks for the page, when the
--   repository answered a call about its task, and when it saw a lost lease.
-- - Corpus.Chunking: app/corpus/chunking.py; Packing is chunk_markdown on the blocks.
-- - Tests: a small crawl, a short text, a few routes and proxy nodes, and the theorems applied to
--   it.
--
-- How the code corresponds. A table is a list of rows in insertion order, a row is a record with
-- the column names, a transaction is a function from the store to the store and what it returns, in
-- the order of its statements; one that raises leaves the store as it was. Operations keep the
-- names of the Python functions without the leading underscore. now() is an argument in
-- milliseconds, constant in a transaction as in PostgreSQL; UUIDs, serial numbers and random
-- samples are arguments, for each call its own; identifiers and SHA-256 digests are numbers. Provider amounts are counted
-- in a meter's smallest unit. Python's negative remaining budget is 0 here, with the same branch
-- taken. Transactions run one after another: row locks and SKIP LOCKED are not modelled. Loops are
-- over lists, but for the one of _iter_blocks, whose index skips lines: it has fuel for each line,
-- and each round takes one at least.
--
-- Parameters, for code outside the source tree or outside the model: UrlTools, the functions
-- normalize_url and origin_key, which stand on urllib, and the digest; ProxyTools, which stand for
-- urlsplit, the ipaddress module, the database's order of texts and the secret files; World, the
-- repository, the adapters and the URL check that the router calls, and everything that the worker
-- calls, each of which may answer or raise as it likes; and Surroundings, the same without the
-- queue. A task of the router that the worker cancels is one whose adapter's call raises. Nothing
-- is assumed of them. Not modelled: connection pools, CrawlConfig's validation, error messages and versions, the
-- read-only queries, bearer tokens, the mTLS bridge, the operator's file of proxies and the stored
-- procedures of remote workers, the UNIQUE (task_id, attempt_number) of acquisition_attempts, and
-- the rest of the service, which is network, HTML and user interface.
pub mod Acquisition
pub mod Worker
pub mod Base
pub mod Classify
pub mod Corpus
pub mod Queue
pub mod Sessions
pub mod Robots
pub mod History
pub mod Tests
