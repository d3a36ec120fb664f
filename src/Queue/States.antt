-- ===== src/Queue/States.antt =====
-- The states of the durable queue's rows, and the tests on them that the SQL of
-- app/crawl/repository.py makes (the CHECK constraints of app/db/migrations/0004 and 0007).
use crawltrove.Base.{Bool, true, false}

-- the `state` of crawl_tasks
pub data TaskState : Type 0 where
  pending leased retry_wait succeeded http_error blocked_robots extraction_failed : TaskState
  permanent_failed cancelled waiting_input : TaskState

-- the `state` of crawl_jobs and scrape_runs
pub data JobState : Type 0 where
  pending running completed partial failed cancelled timed_out : JobState

pub data CircuitState : Type 0 where
  closed open_circuit half_open : CircuitState

pub data ErrorClass : Type 0 where
  transport http extraction policy budget internal permanent : ErrorClass

-- the `state` of live_sessions
pub data SessionState : Type 0 where
  starting waiting connected resuming closed expired cancelled : SessionState

abbrev pub is_leased : TaskState → Bool
is_leased leased = true
is_leased _ = false

-- state IN ('pending','retry_wait')
abbrev pub is_ready : TaskState → Bool
is_ready TaskState.pending = true
is_ready retry_wait = true
is_ready _ = false

-- state IN ('pending','retry_wait','waiting_input')
abbrev pub is_unleased : TaskState → Bool
is_unleased TaskState.pending = true
is_unleased retry_wait = true
is_unleased waiting_input = true
is_unleased _ = false

-- state = ANY(_TERMINAL_TASK_STATES)
abbrev pub is_terminal : TaskState → Bool
is_terminal succeeded = true
is_terminal http_error = true
is_terminal blocked_robots = true
is_terminal extraction_failed = true
is_terminal permanent_failed = true
is_terminal TaskState.cancelled = true
is_terminal _ = false

abbrev pub is_succeeded : TaskState → Bool
is_succeeded succeeded = true
is_succeeded _ = false

abbrev pub is_blocked : TaskState → Bool
is_blocked blocked_robots = true
is_blocked _ = false

abbrev pub is_permanent_failed : TaskState → Bool
is_permanent_failed permanent_failed = true
is_permanent_failed _ = false

-- state IN ('http_error','extraction_failed','permanent_failed')
abbrev pub is_failure : TaskState → Bool
is_failure http_error = true
is_failure extraction_failed = true
is_failure permanent_failed = true
is_failure _ = false

-- state IN ('pending','running')
abbrev pub is_open : JobState → Bool
is_open JobState.pending = true
is_open running = true
is_open _ = false

abbrev pub is_pending_job : JobState → Bool
is_pending_job JobState.pending = true
is_pending_job _ = false

abbrev pub is_cancelled_job : JobState → Bool
is_cancelled_job JobState.cancelled = true
is_cancelled_job _ = false

-- state IN ('completed','partial','failed','cancelled','timed_out')
abbrev pub is_finished : JobState → Bool
is_finished JobState.pending = false
is_finished running = false
is_finished _ = true

-- state IN ('closed','expired','cancelled')
abbrev pub is_closed_session : SessionState → Bool
is_closed_session SessionState.closed = true
is_closed_session expired = true
is_closed_session SessionState.cancelled = true
is_closed_session _ = false

abbrev pub is_resuming : SessionState → Bool
is_resuming resuming = true
is_resuming _ = false
