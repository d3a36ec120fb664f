-- ===== src/Worker/Durable.antt =====
-- The worker of app/crawl/worker.py with the router of app/acquisition/router.py on the durable queue of
-- app/crawl/repository.py. What is outside these three (adapters, proxies, browsers, robots.txt
-- requests, the network to the database and time) is a parameter that may answer each call anew.
pub mod Reaches
use crawltrove.Base.{
  ℕ, ◌+◌, String, Bool, true, false, not, ◌||◌, Option, none, some, List, [], is_some,
  if◌then◌else◌,
}
use crawltrove.Classify.{FailureDecision}
use crawltrove.Queue.Rows.{Db, Origin, Engine, Provider}
use crawltrove.Queue.Results.{Result, ok, err, after}
use crawltrove.Queue.Settle.{Metadata}
use crawltrove.Queue.Discover.{UrlTools}
use crawltrove.Queue.Claim.{ClaimedTask, claim_task}
use crawltrove.Queue.Finish.{TaskResult, complete_task, retry_task, fail_task, block_robots}
use crawltrove.Queue.Lease.{heartbeat, reserve_browser_navigation}
use crawltrove.Queue.RobotsCache.{robots_cache, store_robots}
use crawltrove.Sessions.{wait_for_input_local}
use crawltrove.Acquisition.Registry.{Registry}
use crawltrove.Acquisition.Router.{
  Capability, ordinary, rendering, Choice, auto, named, Settings, Ending, provider_failure,
  provider_unavailable, human_input, crash,
}
use crawltrove.Acquisition.Router.Acquire.{acquire}
use crawltrove.Acquisition.Router.Durable.{queue_world, NativeCost}
use crawltrove.Worker.{
  Fault, transient, defect, Reply, replies, throws, ProviderFailure, Page, Waited, unfinished,
  acquired, needs_human, provider_failed, crashed, RobotsCache, RobotsReply, World,
}

-- What is outside, by the number of the call.
pub record Surroundings : Type 0 where
  pub router : crawltrove.Acquisition.Router.Durable.Surroundings
  pub worker : String
  pub capabilities : List String
  pub now : ℕ → ℕ
  pub uuid : ℕ → ℕ
  -- the ids that one completion draws for the tasks it inserts
  pub ids : ℕ → ℕ → ℕ
  pub sample : ℕ → ℕ
  -- whether the heartbeat in the background is due before the call
  pub is_due : ℕ → Bool
  -- the fault of a connection to the database that is lost before the transaction
  pub connection : ℕ → Option Fault
  pub outside : ℕ → Reply Unit
  pub fetch_robots : ℕ → Reply (Option RobotsReply)
  pub select_proxy : ℕ → Reply (Option String)
  pub mark_failure : ℕ → Reply Bool
  pub links : ℕ → Page → Reply (List String)
  -- the router's task is cancelled; its adapter's call then crashes
  pub is_cancelled : ℕ → Bool
  pub page : ℕ → String → Page
  pub failure : ℕ → String → Bool → ProviderFailure
  pub fault : ℕ → Fault
  pub session_ttl : ℕ

-- The tables, the number of calls so far, the router's registry, and `lease_lost`.
pub record Bench : Type 0 where
  pub db : Db
  pub calls : ℕ
  pub registry : Registry
  pub is_lost : Bool

abbrev pub is_refusal : Result (Db × Bool) → Bool
is_refusal (ok (db, b)) = not b
is_refusal (err e) = false

abbrev pub answer_of : {A : Type 0} → Result (Db × A) → Reply A
answer_of (ok (db, a)) = replies a
answer_of (err e) = throws defect

abbrev pub choice_of : Provider → Choice
choice_of Provider.auto = auto
choice_of Provider.local = named crawltrove.Acquisition.Registry.local
choice_of Provider.firecrawl = named crawltrove.Acquisition.Registry.firecrawl
choice_of Provider.brightdata = named crawltrove.Acquisition.Registry.brightdata
choice_of Provider.browserbase = named crawltrove.Acquisition.Registry.browserbase

-- `_capability`
abbrev pub capability_of : Engine → Capability
capability_of Engine.browser = rendering
capability_of _ = ordinary

abbrev pub settings_of : ClaimedTask → Settings
settings_of t = record {
  url = t.url;
  provider = choice_of t.config.acquisition.provider;
  allow_human = t.config.acquisition.allow_human_intervention;
}

abbrev pub cached : Option Origin → Option RobotsCache
cached none = none
cached (some o) = some (record { body = o.robots_body; expires_at = o.robots_expires_at })

abbrev pub free : NativeCost
free = record { values = []; estimated = false }

module _ (tools : UrlTools) (u : Surroundings) where
  abbrev pub called : Bench → Bench
  called b = record b { calls = b.calls + 1 }

  abbrev pub sent : {A : Type 0} → Option Fault → Bench → Result (Db × A) → Bench × Reply A
  sent (some e) b r = (called b, throws e)
  sent none b r = (record (called b) { db = after b.db r }, answer_of r)

  -- A transaction of the repository, on a connection that may be lost.
  unfoldable pub transact : {A : Type 0} → (Db → ℕ → Result (Db × A)) → Bench → Bench × Reply A
  transact f b = sent (u.connection b.calls) b (f b.db (u.now b.calls))

  abbrev pub pulse : ClaimedTask → Bench → Bench
  pulse t b =
      let r = heartbeat b.db (u.now b.calls) t.id t.lease_token in
      record (called b) { db = after b.db r; is_lost = b.is_lost || is_refusal r }

  -- `_heartbeat` in the background
  unfoldable pub beaten : ClaimedTask → Bench → Bench
  beaten t b = if u.is_due b.calls then pulse t b else b

  abbrev pub outside : {A : Type 0} → (ℕ → Reply A) → Bench → Bench × Reply A
  outside f b = (called b, f b.calls)

  abbrev pub waited : ℕ → Ending → Waited
  waited n (Ending.acquired url) = acquired (u.page n url)
  waited n (provider_failure f) = provider_failed (u.failure n f.code f.retryable)
  waited n (provider_unavailable code) = crashed defect
  waited n human_input = needs_human "owned"
  waited n crash = crashed (u.fault n)

  -- The router's task on the same tables.
  unfoldable pub acquire_page : ClaimedTask → Bench → Bench × Waited
  acquire_page t b =
      let ran =
        acquire (queue_world u.router t.id t.lease_token) (settings_of t)
          (capability_of t.config.engine)
          (record {
            registry = b.registry;
            world = record {
              db = b.db;
              calls = b.calls;
              reserved_cost = free;
              answered_cost = free;
            };
            log = [];
          }) in
      (
        record b { db = ran.0.world.db; calls = ran.0.world.calls + 1; registry = ran.0.registry },
        if u.is_cancelled ran.0.world.calls then unfinished else waited ran.0.world.calls ran.1,
      )

  abbrev pub parked : ClaimedTask → Reply Unit → Bench → Bench × Reply Bool
  parked t (throws e) b = (b, throws e)
  parked t (replies x) b =
      let r =
        wait_for_input_local b.db (u.now b.calls) t "owned" u.worker u.session_ttl
          (u.uuid b.calls) in
      (record (called b) { db = r.0 }, replies (is_some r.1))

  abbrev pub opened : ClaimedTask → Reply Bool → Bench → Bench × Reply Bool
  opened t (replies true) b = parked t (u.outside b.calls) (called b)
  opened t r b = (b, r)

  -- `start` of the session handler: the navigation, the browser, and the session
  unfoldable pub start_session : ClaimedTask → Bench → Bench × Reply Bool
  start_session t b =
      let r = transact (λ db now. reserve_browser_navigation db now t.id t.lease_token) b in
      opened t r.1 r.0

  unfoldable pub claim : Bench → Bench × Reply (Option ClaimedTask)
  claim b =
      transact
        (λ db now.
          ok (claim_task db now u.worker u.capabilities (u.uuid b.calls) (u.uuid (b.calls + 1))))
        b

  unfoldable pub queue : World Bench
  queue = record {
    now = λ b. u.now b.calls;
    is_lost = λ b. b.is_lost;
    sample = λ b. u.sample b.calls;
    claim = claim;
    heartbeat = λ t b. transact (λ db now. heartbeat db now t.id t.lease_token) (beaten t b);
    retry =
        λ t d at m b. transact (λ db now. retry_task db now t.id t.lease_token d at m) (beaten t b);
    fail = λ t d m b. transact (λ db now. fail_task db now t.id t.lease_token d m) (beaten t b);
    block =
        λ t code b. transact (λ db now. block_robots db now t.id t.lease_token code) (beaten t b);
    complete = λ t r b.
        transact
          (λ db now.
            complete_task tools (u.ids b.calls) db now t.id t.lease_token r (u.uuid b.calls))
          (beaten t b);
    robots_cache =
        λ t b. transact (λ db now. ok (db, cached (robots_cache db t.origin_key))) (beaten t b);
    robots_fetch = λ t b. outside u.fetch_robots (beaten t b);
    store_robots = λ t body status b.
        transact (λ db now. ok (store_robots db now t.origin_key body status, tt)) (beaten t b);
    sleep = λ n b. outside u.outside b;
    select_proxy = λ t b. outside u.select_proxy (beaten t b);
    start_proxy = λ t node b. outside u.outside (beaten t b);
    mark_failure = λ t node outcome b. outside u.mark_failure (beaten t b);
    close_proxy = λ node b. outside u.outside b;
    release_proxy = λ t b. outside u.outside b;
    acquire = λ t b. acquire_page t (beaten t b);
    start_session = λ t b. start_session t (beaten t b);
    discover = λ p url b. outside (λ n. u.links n p) b;
    stop_heartbeat = λ b. outside u.outside b;
  }
