-- ===== src/Acquisition/Router/Durable/Reaches.antt =====
-- The router's call as a sequence of the queue's transactions (app/acquisition/router.py with
-- app/crawl/repository.py).
use crawltrove.Base.{ℕ, Option, none, some}
use crawltrove.Queue.Discover.{UrlTools}
use crawltrove.Acquisition.Registry.{Route}
use crawltrove.Acquisition.Router.{Capability, Settings, State}
use crawltrove.Acquisition.Router.Acquire.{acquire}
use crawltrove.Acquisition.Router.Acquire.Worlds.{IsKept, acquire-IsKept}
use crawltrove.Acquisition.Router.Durable.{
  Surroundings, Desk, NativeCost, queue_world, navigate, book, reserve_for, end_attempt, cost_of,
  outcome_name, route_name,
}
use crawltrove.History.{Reachable, Call, next}

module _ (tools : UrlTools) (u : Surroundings) (task token : ℕ) where
  abbrev Reached : Desk → Type 0
  Reached d = Reachable tools d.db

  reserve_for-Reached :
      (d : Desk) (route : Route) (cost : Option NativeCost)
      → Reached d
      → Reached (reserve_for u task token d route cost).0
  unfolding book
  reserve_for-Reached d route none h = h
  reserve_for-Reached d route (some cost) h =
      next d.db (u.now d.calls)
        (Call.reserve_attempt task token (u.uuid d.calls) (route_name route) cost.values) h

  queue_world-IsKept : IsKept (queue_world u task token) Reached
  unfolding queue_world navigate end_attempt
  queue_world-IsKept = record {
    browser = λ d h. next d.db (u.now d.calls) (Call.navigate task token) h;
    reserve = λ d route h. reserve_for-Reached d route (u.reserve_cost d.calls route) h;
    fetch = λ d route h. h;
    finish = λ d id o cost h.
        let c = cost_of cost d in
        next d.db (u.now d.calls)
          (Call.finish_attempt id token (outcome_name o) c.values c.estimated) h;
    cancel = λ d id h. h;
  }

-- The router keeps to the queue's transactions: a call of `acquire` on the durable queue leads from
-- a store that transactions reach to one that transactions reach, whatever the adapters answer.
pub acquire-Reachable :
    (tools : UrlTools) (u : Surroundings) (task token : ℕ) (s : Settings) (c : Capability)
    (st : State Desk)
    → Reachable tools st.world.db
    → Reachable tools (acquire (queue_world u task token) s c st).0.world.db
acquire-Reachable tools u task token s c st h =
    acquire-IsKept (queue_world u task token) (Reached tools u task token)
      (queue_world-IsKept tools u task token) s c st h
