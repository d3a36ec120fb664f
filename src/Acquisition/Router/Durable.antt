-- ===== src/Acquisition/Router/Durable.antt =====
-- The router of app/acquisition/router.py on the durable queue of app/crawl/repository.py: the task's
-- transactions are those of the queue, under the task's lease token. The adapters and the URL check
-- are parameters, which may answer each call differently.
pub mod Reaches
use crawltrove.Base.{ℕ, ◌+◌, String, Bool, true, false, Option, none, some, List}
use crawltrove.Queue.Rows.{Db}
use crawltrove.Queue.Results.{Result, ok, err, protocol_error, after}
use crawltrove.Queue.Meters.{Reported}
use crawltrove.Queue.Lease.{reserve_browser_navigation}
use crawltrove.Queue.Attempts.{
  ReservedAcquisitionAttempt, reserve_acquisition_attempt, finish_acquisition_attempt,
}
use crawltrove.Acquisition.Registry.{
  Route, local_http, owned_proxy_http, local_browser, brightdata_unlocker, firecrawl_scrape,
  firecrawl_interact, browserbase_session,
}
use crawltrove.Acquisition.Router.{
  Answer, Outcome, succeeded, retryable_failure, failure, CostOf, answered, reserved, Reserved,
  granted, exhausted, refused, Navigation, allowed, spent, raised, Finished, recorded,
  impossible_cost, broken, World,
}

abbrev pub route_name : Route → String
route_name local_http = "local_http"
route_name owned_proxy_http = "owned_proxy_http"
route_name local_browser = "local_browser"
route_name brightdata_unlocker = "brightdata_unlocker"
route_name firecrawl_scrape = "firecrawl_scrape"
route_name firecrawl_interact = "firecrawl_interact"
route_name browserbase_session = "browserbase_session"

abbrev pub outcome_name : Outcome → String
outcome_name succeeded = "succeeded"
outcome_name retryable_failure = "retryable_failure"
outcome_name failure = "failed"

-- NativeCost
pub record NativeCost : Type 0 where
  pub values : List Reported
  pub estimated : Bool

-- What an adapter's call gives: the answer, and the cost of its result or of its failure.
pub record Fetched : Type 0 where
  pub answer : Answer
  pub cost : NativeCost

-- The code around the router: what the n-th call sees.
pub record Surroundings : Type 0 where
  pub now : ℕ → ℕ
  pub uuid : ℕ → ℕ
  pub is_public : ℕ → String → Bool
  -- `none` where `reserve_cost` raises ValueError
  pub reserve_cost : ℕ → Route → Option NativeCost
  pub fetch : ℕ → Route → Fetched

-- The tables, the number of calls so far, and the amounts of the attempt that is open.
pub record Desk : Type 0 where
  pub db : Db
  pub calls : ℕ
  pub reserved_cost : NativeCost
  pub answered_cost : NativeCost

abbrev pub priced : Option NativeCost → Bool
priced none = false
priced (some c) = true

abbrev pub cost_of : CostOf → Desk → NativeCost
cost_of answered d = d.answered_cost
cost_of reserved d = d.reserved_cost

abbrev pub navigation : Result (Db × Bool) → Navigation
navigation (ok (db, true)) = allowed
navigation (ok (db, false)) = spent
navigation (err e) = raised

abbrev pub reservation : Result (Db × Option ReservedAcquisitionAttempt) → Reserved
reservation (ok (db, some a)) = granted a.id
reservation (ok (db, none)) = exhausted
reservation (err e) = refused

abbrev pub settlement : Result (Db × Bool) → Finished
settlement (ok (db, b)) = recorded
settlement (err protocol_error) = impossible_cost
settlement (err e) = broken

abbrev pub stored : {A : Type 0} → Desk → Result (Db × A) → Desk
stored d r = record d { db = after d.db r; calls = d.calls + 1 }

module _ (u : Surroundings) (task token : ℕ) where
  unfoldable pub navigate : Desk → Result (Db × Bool)
  navigate d = reserve_browser_navigation d.db (u.now d.calls) task token

  -- `repository.reserve_acquisition_attempt(task.id, task.lease_token, route, reserved.values)`
  unfoldable pub book : Desk → Route → NativeCost → Result (Db × Option ReservedAcquisitionAttempt)
  book d route cost =
      reserve_acquisition_attempt d.db (u.now d.calls) task token (u.uuid d.calls)
        (route_name route) cost.values

  abbrev pub reserve_for : Desk → Route → Option NativeCost → Desk × Reserved
  unfolding book
  reserve_for d route none = (d, refused)
  reserve_for d route (some cost) =
      let r = book d route cost in (record (stored d r) { reserved_cost = cost }, reservation r)

  -- `repository.finish_acquisition_attempt(attempt.id, task.lease_token, outcome, actual.values,
  -- cost_estimated=actual.estimated)`
  unfoldable pub end_attempt : Desk → ℕ → Outcome → NativeCost → Result (Db × Bool)
  end_attempt d attempt outcome cost =
      finish_acquisition_attempt d.db (u.now d.calls) attempt token (outcome_name outcome)
        cost.values cost.estimated

  unfoldable pub queue_world : World Desk
  unfolding navigate book end_attempt
  queue_world = record {
    is_public = λ d url. u.is_public d.calls url;
    reserve_browser = λ d. (stored d (navigate d), navigation (navigate d));
    prices = λ d route. priced (u.reserve_cost d.calls route);
    reserve = λ d route. reserve_for d route (u.reserve_cost d.calls route);
    fetch = λ d route.
        let got = u.fetch d.calls route in
        (record d { calls = d.calls + 1; answered_cost = got.cost }, got.answer);
    finish = λ d attempt outcome cost.
        let r = end_attempt d attempt outcome (cost_of cost d) in (stored d r, settlement r);
    cancel = λ d session. d;
  }
