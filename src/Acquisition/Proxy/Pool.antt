-- ===== src/Acquisition/Proxy/Pool.antt =====
-- `ProxyPool` of app/acquisition/proxy.py: the statements on its nodes, as functions of the store.
pub mod Select
pub mod Calls
pub mod Nodes
pub mod Kept
pub mod Retired
pub mod Selected
use crawltrove.Base.{
  ℕ, ◌+◌, ◌*◌, String, Bool, true, false, not, ◌&&◌, ◌||◌, Option, none, some, List, [], ◌∷◌, ◌++◌,
  ◌==◌, ltb, leb, if◌then◌else◌, str_eq, is_some, is_some_eq, count_where, update_where,
  delete_where, find_where, exists_where, least_where,
}
use crawltrove.Queue.States.{is_leased}
use crawltrove.Queue.Rows.{Task, Attempt, Db}
use crawltrove.Acquisition.Proxy.{
  NodeState, active, cooldown, revoked, offline, is_active, is_revoked, ProxyNode, ProxyRow,
  ProxyStore, ProxyError, value_error, constraint_violation, node_named, is_node_id, are_regions,
  is_region, ProxyTools, endpoint_of, ConfiguredProxy,
}

pub data PoolResult (A : Type 0) : Type 0 where
  ok : A → PoolResult A
  err : ProxyError → PoolResult A

abbrev pub node_exists : ProxyStore → String → Bool
node_exists db id = exists_where (node_named id) db.nodes

-- UNIQUE (endpoint): another node has it.
abbrev pub endpoint_taken : ProxyStore → String → String → Bool
endpoint_taken db id endpoint =
    exists_where (λ n. str_eq n.endpoint endpoint && not (str_eq n.id id)) db.nodes

-- UPDATE of the rows with the id that satisfy p, which gives them the endpoint; without any, no change.
abbrev pub update_node :
    ProxyStore → ProxyNode → (ProxyNode → Bool) → (ProxyNode → ProxyNode) → PoolResult ProxyStore
update_node db n p f =
    if not (exists_where (λ m. node_named n.id m && p m) db.nodes)
    then ok db
    else if endpoint_taken db n.id n.endpoint
    then err constraint_violation
    else ok (record db { nodes = update_where (λ m. node_named n.id m && p m) f db.nodes })

abbrev pub insert_node : ProxyStore → ProxyNode → PoolResult ProxyStore
insert_node db n =
    if endpoint_taken db n.id n.endpoint
    then err constraint_violation
    else ok (record db { nodes = db.nodes ++ n ∷ [] })

-- INSERT … ON CONFLICT (id) DO UPDATE … WHERE p: the other constraints are checked on the row that is
-- written, if there is one.
abbrev pub upsert_node :
    ProxyStore → ProxyNode → (ProxyNode → Bool) → (ProxyNode → ProxyNode) → PoolResult ProxyStore
upsert_node db n p f = if node_exists db n.id then update_node db n p f else insert_node db n

abbrev pub new_node : String → String → List String → Option ℕ → Option ℕ → ProxyNode
new_node id endpoint regions expires seen = record {
  id = id;
  endpoint = endpoint;
  regions = regions;
  state = active;
  credential_expires_at = expires;
  cooldown_until = none;
  last_connected_ip = none;
  last_seen_at = seen;
  failure_count = 0;
}

abbrev pub reactivated : NodeState → NodeState
reactivated revoked = revoked
reactivated _ = active

unfoldable pub register_node : ℕ → ℕ → String → List String → ProxyNode → ProxyNode
register_node now expires endpoint regions m = record m {
  endpoint = endpoint;
  regions = regions;
  credential_expires_at = some expires;
  state = reactivated m.state;
  last_seen_at = some now;
}

unfoldable pub configure_node : String → List String → ProxyNode → ProxyNode
configure_node endpoint regions m = record m { endpoint = endpoint; regions = regions }

abbrev pub region_list : Option String → List String
region_list none = []
region_list (some r) = r ∷ []

abbrev pub after_configured :
    (ProxyStore → PoolResult ProxyStore) → PoolResult ProxyStore → PoolResult ProxyStore
after_configured rest (ok db) = rest db
after_configured rest (err e) = err e

-- `_merge_configured`
unfoldable pub merge_configured : List ConfiguredProxy → ProxyStore → PoolResult ProxyStore
unfolding configure_node
merge_configured [] db = ok db
merge_configured (c ∷ cs) db = after_configured (merge_configured cs) (
    upsert_node db (new_node c.id c.endpoint (region_list c.region) none none)
      (λ m. not (is_revoked m.state)) (configure_node c.endpoint (region_list c.region)))

-- `credential_expires_at > now()`
abbrev pub is_later : Option ℕ → ℕ → Bool
is_later none now = true
is_later (some t) now = ltb now t

unfoldable pub see_node : ℕ → ProxyNode → ProxyNode
see_node now n = record n { last_seen_at = some now }

abbrev pub is_alive : String → ℕ → ProxyNode → Bool
is_alive id now n = node_named id n && is_active n.state && is_later n.credential_expires_at now

-- `heartbeat`
unfoldable pub heartbeat : ProxyStore → ℕ → String → ProxyStore × Bool
unfolding see_node
heartbeat db now id = (
  record db { nodes = update_where (is_alive id now) (see_node now) db.nodes },
  exists_where (is_alive id now) db.nodes,
)

pub data Outcome : Type 0 where
  blocked : Outcome
  transport : Outcome
  other : Outcome

-- `crawl_tasks` has the task, leased under the token.
abbrev pub is_leased_task : ℕ → ℕ → Task → Bool
is_leased_task task token t = t.id == task && is_leased t.state && is_some_eq t.lease_token token

-- The EXISTS of a fence: a live lease of the node for the task, which is leased under the token.
abbrev pub is_fenced : ProxyStore → Db → ℕ → ℕ → ℕ → ProxyNode → Bool
is_fenced db crawl now task token n =
    exists_where
      (λ l.
        str_eq l.node_id n.id
        && l.task_id == task
        && l.lease_token == token
        && ltb now l.expires_at)
      db.leases
    && exists_where (is_leased_task task token) crawl.tasks

-- Who reports a failure: the operator, or a worker with its task and token.
pub data Fence : Type 0 where
  unfenced : Fence
  fenced : ℕ → ℕ → Fence

abbrev pub passes : ProxyStore → Db → ℕ → Fence → ProxyNode → Bool
passes db crawl now unfenced n = true
passes db crawl now (fenced task token) n = is_fenced db crawl now task token n

abbrev pub may_fail : ProxyStore → Db → ℕ → Fence → String → ProxyNode → Bool
may_fail db crawl now fence id n =
    node_named id n && not (is_revoked n.state) && passes db crawl now fence n

unfoldable pub cool_node : ℕ → ℕ → ProxyNode → ProxyNode
cool_node now seconds n = record n {
  state = cooldown;
  cooldown_until = some (now + seconds * 1000);
  failure_count = n.failure_count + 1;
}

unfoldable pub count_failure : ℕ → ProxyNode → ProxyNode
count_failure limit n = record n {
  failure_count = n.failure_count + 1;
  state = if leb limit (n.failure_count + 1) then offline else n.state;
}

abbrev pub fail_node : ProxyStore → (ProxyNode → Bool) → (ProxyNode → ProxyNode) → ProxyStore × Bool
fail_node db p f = (record db { nodes = update_where p f db.nodes }, exists_where p db.nodes)

abbrev pub returning : ProxyStore × Bool → ProxyStore × PoolResult Bool
returning (db, b) = (db, ok b)

abbrev pub apply_failure :
    ProxyStore → ℕ → Outcome → ℕ → ℕ → (ProxyNode → Bool) → ProxyStore × PoolResult Bool
unfolding cool_node count_failure
apply_failure db now blocked seconds limit p = returning (fail_node db p (cool_node now seconds))
apply_failure db now transport seconds limit p = returning (fail_node db p (count_failure limit))
apply_failure db now other seconds limit p = (db, err value_error)

-- `mark_failure`
unfoldable pub mark_failure :
    ProxyStore → Db → ℕ → String → Outcome → ℕ → ℕ → Fence → ProxyStore × PoolResult Bool
unfolding cool_node count_failure
mark_failure db crawl now id outcome cooldown_seconds offline_after fence =
    if ltb cooldown_seconds 1 || ltb offline_after 1
    then (db, err value_error)
    else apply_failure db now outcome cooldown_seconds offline_after
        (may_fail db crawl now fence id)

-- `release_proxy`
unfoldable pub release_proxy : ProxyStore → ℕ → ℕ → ProxyStore
release_proxy db task token = record db {
  leases = delete_where (λ l. l.task_id == task && l.lease_token == token) db.leases;
}
