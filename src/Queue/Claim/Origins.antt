-- ===== src/Queue/Claim/Origins.antt =====
-- What `claim_task` of app/crawl/repository.py asks of a task's job and origin.
use crawltrove.Base.{
  ℕ, max, String, Bool, true, false, Option, none, some, List, [], ◌∷◌, ◌++◌, ◌&&◌, ◌||◌, not,
  if◌then◌else◌, str_eq, ◌==◌, ltb, leb, is_some, update_where, exists_where,
}
use crawltrove.Queue.States.{CircuitState, open_circuit, half_open, is_ready}
use crawltrove.Queue.Rows.{Job, Task, Origin, OriginLease, Db}
use crawltrove.Queue.Meters.{subset}
use crawltrove.Queue.Ledger.{task_named}

-- j.cancel_requested_at IS NULL AND j.deadline_at > now()
abbrev pub is_live : ℕ → Job → Bool
is_live now j = not (is_some j.cancel_requested_at) && ltb now j.deadline_at

abbrev pub live_job : Db → ℕ → ℕ → Bool
live_job db now job = exists_where (λ j. j.id == job && is_live now j) db.jobs

-- The WHERE clause of the claim.
abbrev pub is_claimable : Db → ℕ → List String → Task → Bool
is_claimable db now capabilities t =
    is_ready t.state
    && leb t.available_at now
    && subset t.required_capabilities capabilities
    && live_job db now t.job_id

-- ORDER BY t.priority, t.available_at, t.discovery_seq
abbrev pub claims_before : Task → Task → Bool
claims_before s t =
    ltb s.priority t.priority
    || s.priority == t.priority
      && (ltb s.available_at t.available_at
          || s.available_at == t.available_at && ltb s.discovery_seq t.discovery_seq)

abbrev pub origin_named : String → Origin → Bool
origin_named key o = str_eq o.origin_key key

unfoldable pub new_origin : ℕ → String → Origin
new_origin now key = record {
  origin_key = key;
  next_request_at = now;
  cooldown_until = none;
  robots_body = none;
  robots_status = none;
  robots_fetched_at = none;
  robots_expires_at = none;
  consecutive_failures = 0;
  circuit_state = CircuitState.closed;
  circuit_open_until = none;
  updated_at = now;
}

-- INSERT INTO crawl_origins (origin_key) … ON CONFLICT DO NOTHING
unfoldable pub ensure_origin : Db → ℕ → String → Db
unfolding new_origin
ensure_origin db now key =
    if exists_where (origin_named key) db.origins
    then db
    else record db { origins = db.origins ++ new_origin now key ∷ [] }

abbrev pub is_open_circuit : CircuitState → Bool
is_open_circuit open_circuit = true
is_open_circuit _ = false

-- the greatest value that is not NULL
abbrev pub latest : Option ℕ → Option ℕ → Option ℕ
latest none o = o
latest (some a) none = some a
latest (some a) (some b) = some (max a b)

unfoldable pub blocked_until : Origin → Option ℕ
blocked_until o =
    if is_open_circuit o.circuit_state
    then latest o.cooldown_until o.circuit_open_until
    else o.cooldown_until

abbrev pub is_future : ℕ → Option ℕ → Bool
is_future now none = false
is_future now (some t) = ltb now t

unfoldable pub postpone : ℕ → ℕ → Task → Task
postpone now until t = record t { available_at = until; updated_at = now }

abbrev pub postpone_task : Db → ℕ → ℕ → ℕ → Db
postpone_task db now id until = record db {
  tasks = update_where (task_named id) (postpone now until) db.tasks;
}

unfoldable pub half_open_circuit : ℕ → Origin → Origin
half_open_circuit now o = record o { circuit_state = half_open; updated_at = now }

abbrev pub probe_circuit : Db → ℕ → Origin → Db
probe_circuit db now o =
    if is_open_circuit o.circuit_state
    then record db {
      origins = update_where (origin_named o.origin_key) (half_open_circuit now) db.origins;
    }
    else db

abbrev pub lease_on : String → OriginLease → Bool
lease_on key l = str_eq l.origin_key key
