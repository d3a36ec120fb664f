-- ===== src/Queue/Attempts.antt =====
-- `reserve_acquisition_attempt` and `finish_acquisition_attempt` of app/crawl/repository.py.
pub mod Room
pub mod Kept
pub mod Limits
pub mod Spent
use crawltrove.Base.{
  ℕ, ◌+◌, ◌-◌, ◌*◌, min, String, Bool, true, false, Option, none, some, List, [], ◌∷◌, ◌++◌, ◌&&◌,
  ◌||◌, not, if◌then◌else◌, str_eq, ◌==◌, ltb, leb, is_some, is_some_eq, update_where, find_where,
  count_where,
}
use crawltrove.Queue.Rows.{Job, Task, Attempt, Amount, Usage, Db}
use crawltrove.Queue.Results.{Result, ok, protocol_error, ◌>>=◌, ◌>>◌, raise_if}
use crawltrove.Queue.Meters.{Reported, native_cost, reported, amount_of}
use crawltrove.Queue.Ledger.{is_meter, settle_meter}
use crawltrove.Queue.Settle.{Fenced, fenced_task}
use crawltrove.Queue.Terminal.{when_active}

-- ReservedAcquisitionAttempt
pub record ReservedAcquisitionAttempt : Type 0 where
  pub id : ℕ
  pub task_id : ℕ
  pub route : String
  pub provider : String
  pub reserved_cost : List Amount

-- The provider attempts of a task, which carry a lease token; the worker's own do not.
abbrev pub provider_attempt : ℕ → Attempt → Bool
provider_attempt task a = a.task_id == task && is_some a.lease_token

abbrev pub route_attempt : ℕ → String → Attempt → Bool
route_attempt task route a = provider_attempt task a && str_eq a.route route

abbrev pub total_cap : Job → ℕ
total_cap j = min 4 j.config.acquisition.max_attempts

abbrev pub row_has_room : ℕ → Option Usage → Bool
row_has_room amount none = false
row_has_room amount (some u) = leb (amount + (u.reserved_value + u.consumed_value)) u.limit_value

-- Every meter has a row, and each row has room for its amount.
unfoldable pub has_room : List Usage → ℕ → String → List Amount → Bool
has_room usage job provider [] = true
has_room usage job provider (a ∷ rest) =
    row_has_room a.value (find_where (is_meter job provider a.meter) usage)
    && has_room usage job provider rest

unfoldable pub reserve_amount : ℕ → Usage → Usage
reserve_amount n u = record u { reserved_value = u.reserved_value + n }

unfoldable pub reserve_usage : List Usage → ℕ → String → List Amount → List Usage
unfolding reserve_amount
reserve_usage usage job provider [] = usage
reserve_usage usage job provider (a ∷ rest) =
    reserve_usage (update_where (is_meter job provider a.meter) (reserve_amount a.value) usage) job
      provider rest

unfoldable pub reserved_attempt : ℕ → ℕ → Task → ℕ → ℕ → String → String → List Amount → Attempt
reserved_attempt id now t token number route provider cost = record {
  id = id;
  job_id = t.job_id;
  task_id = t.id;
  attempt_number = number;
  route = route;
  provider = some provider;
  worker_id = none;
  lease_token = some token;
  started_at = now;
  finished_at = none;
  duration_ms = none;
  reserved_cost = cost;
  actual_cost = [];
  outcome = none;
  error_code = none;
  cost_estimated = false;
}

-- The reservation under an active lease; `attempt` is the fresh UUID.
unfoldable pub reserve_active :
    Db
    → ℕ
    → ℕ
    → ℕ
    → String
    → String
    → List Amount
    → Fenced
    → Result (Db × Option ReservedAcquisitionAttempt)
unfolding has_room reserve_usage reserved_attempt
reserve_active db now token attempt route provider cost f =
    let t = f.task in
    let total = count_where (provider_attempt t.id) db.attempts in
    if leb (total_cap f.job) total
      || leb (min 2 (total_cap f.job)) (count_where (route_attempt t.id route) db.attempts)
      || not (has_room db.usage t.job_id provider cost)
    then ok (db, none)
    else ok (
      record db {
        usage = reserve_usage db.usage t.job_id provider cost;
        attempts =
            db.attempts
            ++ reserved_attempt attempt now t token (t.attempt_count * 1000 + total + 1) route
                provider cost
              ∷ [];
      },
      some (record {
        id = attempt;
        task_id = t.id;
        route = route;
        provider = provider;
        reserved_cost = cost;
      }),
    )

-- `reserve_acquisition_attempt`
unfoldable pub reserve_acquisition_attempt :
    Db → ℕ → ℕ → ℕ → ℕ → String → List Reported → Result (Db × Option ReservedAcquisitionAttempt)
unfolding reserve_active
reserve_acquisition_attempt db now id token attempt route values = do
  cost ← native_cost route values
  when_active db now (fenced_task db id token) none
      (reserve_active db now token attempt route cost.0 cost.1)

-- Some meter's actual usage is above what was reserved.
unfoldable pub exceeds : List Amount → List Amount → Bool
exceeds [] reserved = false
exceeds (a ∷ rest) reserved = ltb (amount_of a.meter reserved) a.value || exceeds rest reserved

unfoldable pub settle_usage_rows :
    List Usage → ℕ → String → List Amount → List Amount → Result (List Usage)
unfolding settle_meter
settle_usage_rows usage job provider reserved [] = ok usage
settle_usage_rows usage job provider reserved (a ∷ rest) = do
  settled ← settle_meter usage job provider a.meter (amount_of a.meter reserved) a.value
  raise_if (not settled.1) protocol_error
  settle_usage_rows settled.0 job provider reserved rest

unfoldable pub record_outcome : ℕ → List Amount → String → Bool → Attempt → Attempt
record_outcome now actual outcome estimated a = record a {
  finished_at = some now;
  duration_ms = some (now - a.started_at);
  actual_cost = actual;
  outcome = some outcome;
  cost_estimated = estimated;
}

abbrev pub is_provider : Option String → String → Bool
is_provider none p = false
is_provider (some q) p = str_eq q p

unfoldable pub finish_active :
    Db → ℕ → Attempt → String → List Reported → Bool → Fenced → Result (Db × Bool)
unfolding exceeds settle_usage_rows record_outcome
finish_active db now a outcome values estimated f =
    if is_some a.finished_at then ok (db, false) else do
      actual ← native_cost a.route values
      reserved ← native_cost a.route (reported a.reserved_cost)
      raise_if (not (is_provider a.provider actual.0) || not (str_eq reserved.0 actual.0))
          protocol_error
      raise_if (exceeds actual.1 reserved.1) protocol_error
      usage ← settle_usage_rows db.usage f.task.job_id actual.0 reserved.1 actual.1
      ok (
        record db {
          usage = usage;
          attempts =
              update_where (λ x. x.id == a.id) (record_outcome now actual.1 outcome estimated)
                db.attempts;
        },
        true,
      )

-- `finish_acquisition_attempt`
unfoldable pub finish_acquisition_attempt :
    Db → ℕ → ℕ → ℕ → String → List Reported → Bool → Result (Db × Bool)
unfolding finish_active
finish_acquisition_attempt db now attempt token outcome values estimated =
    elim (find_where (λ x. x.id == attempt) db.attempts) [
      | none ↦ ok (db, false)
      | some a ↦
          if not (is_some_eq a.lease_token token)
          then ok (db, false)
          else when_active db now (fenced_task db a.task_id token) false
              (finish_active db now a outcome values estimated)
    ]
