-- ===== src/Queue/Attempts/Limits.antt =====
-- The ledger of native meters of app/crawl/repository.py under the reservation of a
-- provider attempt.
use crawltrove.Base.{
  ℕ, ◌≡◌, sym, subst, String, none, List, [], ◌∷◌, ◌||◌, not, min, if_cases, leb, arith,
  count_where, All, Distinct,
}
use crawltrove.Queue.Rows.{Amount, Db}
use crawltrove.Queue.Results.{Keeps, Yields-bind}
use crawltrove.Queue.Meters.{Reported, meters_of, native_cost, reported}
use crawltrove.Queue.Meters.Stored.{SameMeters, native_cost-SameMeters}
use crawltrove.Queue.Ledger.Limits.{HasLedger}
use crawltrove.Queue.Settle.{Fenced, fenced_task}
use crawltrove.Queue.Attempts.{
  total_cap, provider_attempt, route_attempt, has_room, reserve_active, reserve_acquisition_attempt,
}
use crawltrove.Queue.Attempts.Room.{has_room-FitsIn, reserve_usage-IsLedger}
use crawltrove.Queue.Attempts.Kept.{when_active-HasLedger}

reserve_active-HasLedger :
    (db : Db) (now token attempt : ℕ) (route provider : String) (cost : List Amount) (f : Fenced)
    → Distinct (λ (a : Amount). a.meter) cost
    → HasLedger db
    → Keeps HasLedger (reserve_active db now token attempt route provider cost f)
unfolding reserve_active
reserve_active-HasLedger db now token attempt route provider cost f distinct h =
    if_cases (Keeps HasLedger)
      (leb (total_cap f.job) (count_where (provider_attempt f.task.id) db.attempts)
        || leb (min 2 (total_cap f.job)) (count_where (route_attempt f.task.id route) db.attempts)
        || not (has_room db.usage f.task.job_id provider cost))
      _ _ (λ _. h)
      (λ e.
        reserve_usage-IsLedger db.usage f.task.job_id provider cost distinct
          (has_room-FitsIn db.usage f.task.job_id provider cost h.keys (ground arith)) h)

-- The keys of a JSON object: no meter is reported twice.
abbrev pub NoRepeats : List Reported → Type 0
NoRepeats values = Distinct (λ (m : String). m) (meters_of values)

Distinct-meters :
    (cost : List Amount)
    → Distinct (λ (m : String). m) (meters_of (reported cost))
    → Distinct (λ (a : Amount). a.meter) cost
unfolding meters_of reported
Distinct-meters [] h = tt
Distinct-meters (a ∷ rest) h = (others rest h.0, Distinct-meters rest h.1)
  where
    others :
        (xs : List Amount)
        → All (λ y. ¬ (y ≡ a.meter)) (meters_of (reported xs))
        → All (λ (x : Amount). ¬ (x.meter ≡ a.meter)) xs
    others [] k = tt
    others (x ∷ xs) k = (k.0, others xs k.1)

-- A reservation of a provider attempt, for a cost that reports no meter twice, keeps the ledger:
-- one row for each meter of a job, in which what is reserved and what is consumed are together at
-- most the limit.
pub reserve_acquisition_attempt-HasLedger :
    (db : Db) (now id token attempt : ℕ) (route : String) (values : List Reported)
    → NoRepeats values
    → HasLedger db
    → Keeps HasLedger (reserve_acquisition_attempt db now id token attempt route values)
unfolding reserve_acquisition_attempt
reserve_acquisition_attempt-HasLedger db now id token attempt route values distinct h =
    Yields-bind (λ cost. SameMeters values cost.1) (λ r. HasLedger r.0) (native_cost route values) _
      (native_cost-SameMeters route values)
      λ cost same. when_active-HasLedger db now (fenced_task db id token) none _ h λ f.
        reserve_active-HasLedger db now token attempt route cost.0 cost.1 f
          (Distinct-meters cost.1 (subst (Distinct (λ (m : String). m)) (sym same) distinct)) h
