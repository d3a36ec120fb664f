-- ===== src/Worker/Durable/Reaches.antt =====
-- The worker's runs as sequences of the queue's transactions (app/crawl/worker.py with
-- app/crawl/repository.py).
use crawltrove.Base.{ℕ, ◌+◌, Bool, true, false, Option, none, some, if_cases}
use crawltrove.Queue.Rows.{Db}
use crawltrove.Queue.Results.{Result, after}
use crawltrove.Queue.Discover.{UrlTools}
use crawltrove.Queue.Claim.{ClaimedTask}
use crawltrove.Queue.Lease.{reserve_browser_navigation}
use crawltrove.Acquisition.Router.Durable.Reaches.{acquire-Reachable}
use crawltrove.Worker.{Fault, Reply, replies, throws, Setup, State}
use crawltrove.Worker.Run.{run_once}
use crawltrove.Worker.Run.Safe.{Rules}
use crawltrove.Worker.Run.Answered.{run_once-Ended}
use crawltrove.Worker.Durable.{
  Surroundings, Bench, called, sent, transact, beaten, acquire_page, parked, opened, start_session,
  claim, queue, settings_of, capability_of,
}
use crawltrove.History.{Reachable, Call, next}

module _ (tools : UrlTools) (u : Surroundings) where
  abbrev Reached : Bench → Type 0
  Reached b = Reachable tools b.db

  transact-Reached :
      {A : Type 0} (f : Db → ℕ → Result (Db × A)) (b : Bench)
      → ((db : Db) (now : ℕ) → Reachable tools db → Reachable tools (after db (f db now)))
      → Reached b
      → Reached (transact tools u f b).0
  unfolding transact
  transact-Reached f b k h = by_connection (u.connection b.calls)
    where
      by_connection : (e : Option Fault) → Reached (sent tools u e b (f b.db (u.now b.calls))).0
      by_connection (some x) = h
      by_connection none = k b.db (u.now b.calls) h

  beaten-Reached : (t : ClaimedTask) (b : Bench) → Reached b → Reached (beaten tools u t b)
  unfolding beaten
  beaten-Reached t b h =
      if_cases Reached (u.is_due b.calls) _ _
        (λ _. next b.db (u.now b.calls) (Call.beat t.id t.lease_token) h) (λ _. h)

  acquire_page-Reached :
      (t : ClaimedTask) (b : Bench) → Reached b → Reached (acquire_page tools u t b).0
  unfolding acquire_page
  acquire_page-Reached t b h =
      acquire-Reachable tools u.router t.id t.lease_token (settings_of t)
        (capability_of t.config.engine) _ h

  opened-Reached :
      (t : ClaimedTask) (r : Reply Bool) (b : Bench) → Reached b → Reached (opened tools u t r b).0
  opened-Reached t (throws e) b h = h
  opened-Reached t (replies false) b h = h
  opened-Reached t (replies true) b h = parked-Reached (u.outside b.calls)
    where
      parked-Reached : (r : Reply Unit) → Reached (parked tools u t r (called tools u b)).0
      parked-Reached (throws e) = h
      parked-Reached (replies x) =
          next b.db (u.now (b.calls + 1))
            (Call.park t "owned" u.worker u.session_ttl (u.uuid (b.calls + 1))) h

  start_session-Reached :
      (t : ClaimedTask) (b : Bench) → Reached b → Reached (start_session tools u t b).0
  unfolding start_session
  start_session-Reached t b h =
      let navigate = λ (db : Db) (now : ℕ). reserve_browser_navigation db now t.id t.lease_token in
      opened-Reached t (transact tools u navigate b).1 (transact tools u navigate b).0 (
        transact-Reached navigate b (λ db now k. next db now (Call.navigate t.id t.lease_token) k)
          h)

  queue-Rules : Rules (queue tools u) Reached
  unfolding queue claim
  queue-Rules = record {
    claim = λ b h.
        transact-Reached _ b (λ db now k. next db now (Call.claim u.worker u.capabilities _ _) k) h;
    heartbeat = λ t b h.
        transact-Reached _ _ (λ db now k. next db now (Call.beat t.id t.lease_token) k)
          (beaten-Reached t b h);
    retry = λ t d at m b h.
        transact-Reached _ _ (λ db now k. next db now (Call.retry t.id t.lease_token d at m) k)
          (beaten-Reached t b h);
    fail = λ t d m b h.
        transact-Reached _ _ (λ db now k. next db now (Call.fail t.id t.lease_token d m) k)
          (beaten-Reached t b h);
    block = λ t code b h.
        transact-Reached _ _ (λ db now k. next db now (Call.block t.id t.lease_token code) k)
          (beaten-Reached t b h);
    complete = λ t r b h.
        transact-Reached _ _ (λ db now k. next db now (Call.complete t.id t.lease_token r _ _) k)
          (beaten-Reached t b h);
    robots_cache = λ t b h. transact-Reached _ _ (λ db now k. k) (beaten-Reached t b h);
    robots_fetch = λ t b h. beaten-Reached t b h;
    store_robots = λ t body status b h.
        transact-Reached _ _ (λ db now k. next db now (Call.keep_robots t.origin_key body status) k)
          (beaten-Reached t b h);
    sleep = λ n b h. h;
    select_proxy = λ t b h. beaten-Reached t b h;
    start_proxy = λ t node b h. beaten-Reached t b h;
    mark_failure = λ t node outcome b h. beaten-Reached t b h;
    close_proxy = λ node b h. h;
    release_proxy = λ t b h. h;
    acquire = λ t b h. acquire_page-Reached t _ (beaten-Reached t b h);
    start_session = λ t b h. start_session-Reached t _ (beaten-Reached t b h);
    discover = λ p url b h. h;
    stop_heartbeat = λ b h. h;
  }

-- The worker, the router and the queue together: a run of the worker on a store that transactions
-- reach, with its heartbeats in the background, its robots.txt, its router and its human session,
-- leaves a store that transactions reach, whatever the code outside these components does.
pub run_once-Reachable :
    (tools : UrlTools) (u : Surroundings) (s : Setup) (st : State Bench)
    → Reachable tools st.world.db
    → Reachable tools (run_once (queue tools u) s st).0.world.db
run_once-Reachable tools u s st h =
    (run_once-Ended (queue tools u) s (Reached tools u) (queue-Rules tools u) st h).0
