-- ===== src/Queue/Ledger.antt =====
-- The native-usage ledger of app/crawl/repository.py: crawl_provider_usage, its CHECK constraints
-- (app/db/migrations/0008_managed_acquisition.sql), and the reconciliation of abandoned attempts.
pub mod Limits
use crawltrove.Base.{
  ℕ, ◌+◌, ◌-◌, String, Bool, true, false, Option, none, some, List, [], ◌∷◌, ◌&&◌, ◌||◌, not,
  if◌then◌else◌, str_eq, ◌==◌, leb, is_some, update_where, find_where, select_where,
}
use crawltrove.Queue.States.{is_leased}
use crawltrove.Queue.Rows.{Job, Task, Attempt, Amount, Usage, Db}
use crawltrove.Queue.Results.{
  Result, ok, err, protocol_error, constraint_violation, ◌>>=◌, ◌>>◌, raise_if,
}
use crawltrove.Queue.Meters.{native_cost, reported}

-- the row of one meter of a job
abbrev pub is_meter : ℕ → String → String → Usage → Bool
is_meter job provider meter u =
    u.job_id == job && str_eq u.provider provider && str_eq u.meter meter

-- Moves `reserved` out of the reserved value of a row and adds `consumed` to its consumed value.
unfoldable pub settle_usage : ℕ → ℕ → Usage → Usage
settle_usage reserved consumed u = record u {
  reserved_value = u.reserved_value - reserved;
  consumed_value = u.consumed_value + consumed;
}

-- CHECK (reserved_value >= 0), CHECK (reserved_value + consumed_value <= limit_value)
unfoldable pub settle_fits : ℕ → ℕ → Usage → Bool
settle_fits reserved consumed u =
    leb reserved u.reserved_value
    && leb (u.reserved_value - reserved + (u.consumed_value + consumed)) u.limit_value

-- The UPDATE of crawl_provider_usage that settles one meter: whether a row was updated, or the
-- violation of a CHECK.
unfoldable pub settle_meter : List Usage → ℕ → String → String → ℕ → ℕ → Result (List Usage × Bool)
unfolding settle_usage settle_fits
settle_meter usage job provider meter reserved consumed =
    elim (find_where (is_meter job provider meter) usage) [
      | none ↦ ok (usage, false)
      | some u ↦
          if settle_fits reserved consumed u
          then ok (
            update_where (is_meter job provider meter) (settle_usage reserved consumed) usage,
            true,
          )
          else err constraint_violation
    ]

-- An abandoned attempt's reservation is consumed whole, meter by meter.
unfoldable pub consume_reserved : List Usage → ℕ → String → List Amount → Result (List Usage)
unfolding settle_meter
consume_reserved usage job provider [] = ok usage
consume_reserved usage job provider (a ∷ rest) = do
  settled ← settle_meter usage job provider a.meter a.value a.value
  raise_if (not settled.1) protocol_error
  consume_reserved settled.0 job provider rest

abbrev pub expired_by : ℕ → Option ℕ → Bool
expired_by now none = false
expired_by now (some t) = leb t now

abbrev pub same_token : Option ℕ → Option ℕ → Bool
same_token none none = true
same_token none (some b) = false
same_token (some a) none = false
same_token (some a) (some b) = a == b

-- The lease under which the attempt was made no longer holds.
unfoldable pub lease_inactive : ℕ → Attempt → Task → Job → Bool
lease_inactive now a t j =
    not (is_leased t.state)
    || not (same_token t.lease_token a.lease_token)
    || expired_by now t.lease_expires_at
    || is_some j.cancel_requested_at
    || leb j.deadline_at now

abbrev pub job_named : ℕ → Job → Bool
job_named id j = j.id == id

abbrev pub task_named : ℕ → Task → Bool
task_named id t = t.id == id

-- the two inner joins of the query
unfoldable pub joined : Option Task → Option Job → (Task → Job → Bool) → Bool
joined (some t) (some j) p = p t j
joined _ _ p = false

abbrev pub of_task : Option ℕ → Attempt → Bool
of_task none a = true
of_task (some t) a = a.task_id == t

unfoldable pub is_abandoned : Db → ℕ → Option ℕ → Attempt → Bool
unfolding lease_inactive joined
is_abandoned db now task_id a =
    not (is_some a.finished_at)
    && is_some a.lease_token
    && of_task task_id a
    && joined (find_where (task_named a.task_id) db.tasks) (find_where (job_named a.job_id) db.jobs)
        (lease_inactive now a)

unfoldable pub abandon : ℕ → List Amount → Attempt → Attempt
abandon now cost a = record a {
  finished_at = some now;
  duration_ms = some (now - a.started_at);
  actual_cost = cost;
  outcome = some "abandoned";
  error_code = some "lease_inactive";
  cost_estimated = true;
}

abbrev pub is_unfinished : ℕ → Attempt → Bool
is_unfinished id a = a.id == id && not (is_some a.finished_at)

unfoldable pub reconcile_attempt : Db → ℕ → Attempt → Result Db
unfolding consume_reserved abandon
reconcile_attempt db now a = do
  cost ← native_cost a.route (reported a.reserved_cost)
  usage ←
      if str_eq cost.0 "local"
      then ok db.usage
      else consume_reserved db.usage a.job_id cost.0 cost.1
  ok (record db {
    usage = usage;
    attempts = update_where (is_unfinished a.id) (abandon now cost.1) db.attempts;
  })

unfoldable pub reconcile_all : ℕ → List Attempt → Db → ℕ → Result (Db × ℕ)
unfolding reconcile_attempt
reconcile_all now [] db n = ok (db, n)
reconcile_all now (a ∷ rest) db n = do
  db' ← reconcile_attempt db now a
  reconcile_all now rest db' (n + 1)

-- `_reconcile_abandoned_acquisition_attempts`
unfoldable pub reconcile_abandoned : Db → ℕ → Option ℕ → Result (Db × ℕ)
unfolding is_abandoned reconcile_all
reconcile_abandoned db now task_id =
    reconcile_all now (select_where (is_abandoned db now task_id) db.attempts) db 0
