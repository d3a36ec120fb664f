-- ===== src/Tests/Acquisitions.antt =====
-- The theorems on the router and the proxy pool applied to small registries and stores.
use crawltrove.Base.{
  ℕ, suc, ◌≡◌, refl, String, true, false, none, some, List, [], ◌∷◌, len, ltb, str_append, ◌+◌,
  find_where, least_where, exists_where, sum_of, delete_where, update_where,
}
use crawltrove.Queue.Rows.{Db, Attempt}
use crawltrove.Acquisition.Registry.{
  Registry, new_registry, local, firecrawl_scrape, brightdata, local_http, Route,
}
use crawltrove.Acquisition.Router.{
  ordinary, World, Settings, State, Choice, named, auto, granted, recorded, page, failed, allowed,
  fail, Answer,
}
use crawltrove.Acquisition.Router.Acquire.{acquire}
use crawltrove.Acquisition.Router.Acquire.Settled.{IsSettled, nothing, acquire-IsSettled}
use crawltrove.Acquisition.Router.Acquire.Classified.{
  Reserves, IsOf, IsHttp, acquire-IsOf, acquire-IsHttp,
}
use crawltrove.Acquisition.Router.Durable.{Surroundings, NativeCost}
use crawltrove.Acquisition.Proxy.{
  NodeState, is_node_id, endpoint_of, checked_endpoint, are_regions, all_distinct, ProxyNode,
  ProxyStore, ProxyTools, active, cooldown, revoked,
}
use crawltrove.Acquisition.Proxy.Pool.{
  fenced, ok, merge_configured, release_proxy, register_node, heartbeat,
}
use crawltrove.Acquisition.Proxy.Pool.Select.{ProxyLease, select, register, assign}
use crawltrove.Acquisition.Proxy.Pool.Calls.{
  PoolStep, register_call, heartbeat_call, run_calls, stored_with,
}
use crawltrove.Acquisition.Proxy.Pool.Kept.{IsKept}
use crawltrove.Acquisition.Proxy.Pool.Selected.{IsChosen, IsRecorded, select-IsChosen}
use crawltrove.Acquisition.Proxy.Pool.Retired.{
  IsRevokedState, IsInactive, OffNode, revoked-IsFinal, IsInactive-IsFinal,
}
use crawltrove.History.{empty_db}
use crawltrove.Tests.Crawl.{one_credit, leased_task}

-- Attempts are numbered by the world's state; the local page cannot be read, the paid one can.
abbrev answers : Route → Answer
answers local_http = failed (fail "timeout")
answers route = page "https://example.com/" none

abbrev counting : World ℕ
counting = record {
  is_public = λ t url. true;
  reserve_browser = λ t. (t, allowed);
  prices = λ t route. true;
  reserve = λ t route. (suc t, granted t);
  fetch = λ t route. (t, answers route);
  finish = λ t id outcome cost. (t, recorded);
  cancel = λ t session. t;
}

abbrev home : Choice → Settings
home choice = record { url = "https://example.com/"; provider = choice; allow_human = false }

abbrev registry : Registry
registry =
    new_registry
      (record { name = local; available = true; has_route = λ r. true }
        ∷ record { name = brightdata; available = true; has_route = λ r. true }
        ∷ [])
      none

abbrev idle : State ℕ
idle = record { registry = registry; world = 0; log = [] }

acquire-IsSettled_example : IsSettled (acquire counting (home auto) ordinary idle).0.log
acquire-IsSettled_example = acquire-IsSettled counting (home auto) ordinary idle nothing

acquire-IsOf_example :
    Reserves (IsOf brightdata) (acquire counting (home (named brightdata)) ordinary idle).0.log
acquire-IsOf_example =
    acquire-IsOf counting (home (named brightdata)) ordinary idle brightdata refl tt

acquire-IsHttp_example : Reserves IsHttp (acquire counting (home auto) ordinary idle).0.log
acquire-IsHttp_example = acquire-IsHttp counting (home auto) idle refl (λ t. refl) tt

abbrev free : NativeCost
free = record { values = []; estimated = false }

-- A scraped page is reserved one credit.
abbrev price : Route → NativeCost
price firecrawl_scrape = record { values = one_credit; estimated = false }
price route = free

abbrev pub surroundings : Surroundings
surroundings = record {
  now = λ n. 20 + n;
  uuid = λ n. 30 + n;
  is_public = λ n url. true;
  reserve_cost = λ n route. some (price route);
  fetch = λ n route. record { answer = page "https://example.com/" none; cost = free };
}

abbrev proxy_tools : ProxyTools
proxy_tools = record {
  urlsplit = λ u. record {
    scheme = "https";
    netloc = u;
    path = "";
    query = "";
    fragment = "";
    username = none;
    password = none;
    hostname = some u;
    port = some 443;
  };
  before = λ a b. ltb (len a) (len b);
  public_address = λ a. some a;
  has_secrets = λ id. true;
}

abbrev node : String → NodeState → ProxyNode
node id state = record {
  id = id;
  endpoint = str_append "https://" id;
  regions = [];
  state = state;
  credential_expires_at = some 1000;
  cooldown_until = some 5;
  last_connected_ip = none;
  last_seen_at = none;
  failure_count = 1;
}

abbrev nodes_with : NodeState → ProxyStore
nodes_with state = record {
  nodes = node "first" state ∷ node "other" active ∷ [];
  leases = [];
  proxy_id = λ id. none;
  connected_ip = λ id. none;
}

abbrev attempt : Attempt
attempt = record {
  id = 8;
  job_id = 1;
  task_id = 2;
  attempt_number = 1;
  route = "proxy";
  provider = none;
  worker_id = some "worker";
  lease_token = none;
  started_at = 10;
  finished_at = none;
  duration_ms = none;
  reserved_cost = [];
  actual_cost = [];
  outcome = none;
  error_code = none;
  cost_estimated = false;
}

-- the task under its lease, with its attempt open
abbrev crawl : Db
crawl = record empty_db { tasks = leased_task ∷ []; attempts = attempt ∷ [] }

abbrev origin : String
origin = "https://example.com"

abbrev lease_on : String → ProxyLease
lease_on id = record { node_id = id; endpoint = str_append "https://" id; origin_key = origin }

abbrev selected : ProxyStore → ProxyStore
unfolding select
selected db = stored_with db (select proxy_tools [] db crawl 20 origin none (fenced 2 7))

first_selected :
    select proxy_tools [] (nodes_with active) crawl 20 origin none (fenced 2 7)
    ≡ ok (selected (nodes_with active), some (lease_on "first"))
unfolding select merge_configured assign release_proxy find_where least_where exists_where sum_of
    delete_where
first_selected = refl

select-IsChosen_example :
    IsChosen 20 none (nodes_with active) (lease_on "first")
    × IsRecorded 20 (fenced 2 7) [] (selected (nodes_with active)).leases (lease_on "first")
unfolding delete_where
select-IsChosen_example =
    select-IsChosen proxy_tools [] (nodes_with active) (nodes_with active)
      (selected (nodes_with active)) crawl 20 origin none (fenced 2 7) (lease_on "first")
      (unfold merge_configured in refl) first_selected

abbrev again : List PoolStep
again =
    record { now = 10; crawl = crawl; call = register_call "first" "first:443" [] none }
    ∷ record { now = 11; crawl = crawl; call = heartbeat_call "first" }
    ∷ []

abbrev after_again : ProxyStore
after_again = run_calls proxy_tools [] (nodes_with revoked) again

revoked-IsFinal_example :
    IsKept IsRevokedState "first" after_again.nodes
    × OffNode "first" (select proxy_tools [] after_again crawl 20 origin none (fenced 2 7))
unfolding exists_where run_calls
revoked-IsFinal_example =
    revoked-IsFinal proxy_tools [] "first" (nodes_with revoked) again crawl 20 origin none
      (fenced 2 7) (record { known = refl; rows = (λ e. refl, (λ e. cc, tt)) })

-- The lease is on the node that is left.
other_selected :
    select proxy_tools [] after_again crawl 20 origin none (fenced 2 7)
    ≡ ok (selected after_again, some (lease_on "other"))
unfolding select merge_configured assign release_proxy run_calls register register_node heartbeat
    is_node_id endpoint_of checked_endpoint are_regions all_distinct update_where find_where
    least_where exists_where sum_of delete_where
other_selected = refl

abbrev beaten : List PoolStep
beaten = record { now = 11; crawl = crawl; call = heartbeat_call "first" } ∷ []

abbrev after_beaten : ProxyStore
after_beaten = run_calls proxy_tools [] (nodes_with cooldown) beaten

IsInactive-IsFinal_example :
    IsKept IsInactive "first" after_beaten.nodes
    × OffNode "first" (select proxy_tools [] after_beaten crawl 20 origin none (fenced 2 7))
unfolding exists_where run_calls
IsInactive-IsFinal_example =
    IsInactive-IsFinal proxy_tools [] "first" (nodes_with cooldown) beaten crawl 20 origin none
      (fenced 2 7) (record { known = refl; rows = (λ e. refl, (λ e. cc, tt)) }) (tt, tt)
