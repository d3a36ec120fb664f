-- ===== src/Acquisition/Proxy/Pool/Select.antt =====
-- `ProxyPool` of app/acquisition/proxy.py: registration, the selection of a node and the attested
-- address. The queue's tables are read only; of acquisition_attempts the pool writes two columns of
-- its own.
use crawltrove.Base.{
  ℕ, ◌+◌, String, Bool, true, false, not, ◌&&◌, ◌||◌, Option, none, some, List, [], ◌∷◌, ◌++◌, ◌==◌,
  ltb, leb, if◌then◌else◌, str_eq, is_some, count_where, update_where, delete_where, find_where,
  exists_where, least_where,
}
use crawltrove.Queue.Rows.{Task, Attempt, Db}
use crawltrove.Acquisition.Proxy.{
  is_active, ProxyNode, ProxyRow, ProxyStore, value_error, node_named, is_node_id, are_regions,
  ProxyTools, endpoint_of, ConfiguredProxy,
}
use crawltrove.Acquisition.Proxy.Pool.{
  PoolResult, ok, err, upsert_node, new_node, register_node, merge_configured, is_later,
  is_leased_task, is_fenced, Fence, unfenced, fenced, release_proxy,
}

abbrev pub is_open_attempt : Task → Attempt → Bool
is_open_attempt t a =
    a.task_id == t.id && a.attempt_number == t.attempt_count && not (is_some a.finished_at)

-- UPDATE acquisition_attempts SET column = value WHERE p, on a column kept by the attempt's id
abbrev pub set_column :
    List Attempt → (Attempt → Bool) → String → (ℕ → Option String) → ℕ → Option String
set_column attempts p v column id =
    if exists_where (λ a. a.id == id && p a) attempts then some v else column id

-- The lease that `select` returns.
pub record ProxyLease : Type 0 where
  pub node_id : String
  pub endpoint : String
  pub origin_key : String

abbrev pub live_leases : ℕ → List ProxyRow → ProxyNode → ℕ
live_leases now leases n = count_where (λ l. str_eq l.node_id n.id && ltb now l.expires_at) leases

abbrev pub in_region : Option String → ProxyNode → Bool
in_region none n = true
in_region (some r) n = exists_where (λ s. str_eq s r) n.regions

abbrev pub is_cool : Option ℕ → ℕ → Bool
is_cool none now = true
is_cool (some t) now = leb t now

-- The WHERE of the query for a node.
abbrev pub is_eligible : ℕ → Option String → ProxyNode → Bool
is_eligible now region n =
    is_active n.state
    && is_later n.credential_expires_at now
    && is_cool n.cooldown_until now
    && in_region region n

module _ (tools : ProxyTools) (configured : List ConfiguredProxy) where
  abbrev pub expiry : ℕ → Option ℕ → ℕ
  expiry now none = now + 86_400_000
  expiry now (some t) = t

  abbrev pub register_checked :
      ProxyStore → ℕ → String → List String → ℕ → Option String → PoolResult ProxyStore
  unfolding register_node
  register_checked db now id regions until none = err value_error
  register_checked db now id regions until (some url) =
      upsert_node db (new_node id url regions (some until) (some now)) (λ m. true)
        (register_node now until url regions)

  -- `register`; `expires` is the given expiry, if there is one
  unfoldable pub register :
      ProxyStore → ℕ → String → String → List String → Option ℕ → PoolResult ProxyStore
  unfolding is_node_id are_regions endpoint_of register_node
  register db now id endpoint regions expires =
      if not (is_node_id id) || leb (expiry now expires) now || not (are_regions regions)
      then err value_error
      else register_checked db now id regions (expiry now expires)
          (endpoint_of tools false endpoint)

  -- ORDER BY active_leases, n.id
  abbrev pub stands_before : ℕ → List ProxyRow → ProxyNode → ProxyNode → Bool
  stands_before now leases a b =
      ltb (live_leases now leases a) (live_leases now leases b)
      || live_leases now leases a == live_leases now leases b && tools.before a.id b.id

  abbrev pub drop_expired : ℕ → ProxyStore → ProxyStore
  drop_expired now db = record db { leases = delete_where (λ l. leb l.expires_at now) db.leases }

  abbrev pub is_configured : String → Bool
  is_configured id = exists_where (λ (c : ConfiguredProxy). str_eq c.id id) configured

  -- The credentials of a configured node are read before the transaction commits.
  abbrev pub granted : ProxyStore → String → ProxyNode → PoolResult (ProxyStore × Option ProxyLease)
  granted db origin n =
      if is_configured n.id && not (tools.has_secrets n.id)
      then err value_error
      else ok (db, some (record { node_id = n.id; endpoint = n.endpoint; origin_key = origin }))

  -- INSERT … ON CONFLICT (task_id) DO NOTHING
  abbrev pub insert_lease : ProxyStore → ℕ → String → Task → ℕ → ProxyNode → ProxyStore
  insert_lease db now origin t token n =
      if exists_where (λ l. l.task_id == t.id) db.leases then db else record db {
        leases =
            db.leases
            ++ record {
              node_id = n.id;
              task_id = t.id;
              origin_key = origin;
              lease_token = token;
              expires_at = now + 120_000;
            }
              ∷ [];
      }

  -- The lease of a task on a node, if one of its attempts is open.
  unfoldable pub assign :
      ProxyStore
      → Db
      → ℕ
      → String
      → Task
      → ℕ
      → ProxyNode
      → PoolResult (ProxyStore × Option ProxyLease)
  unfolding release_proxy
  assign db crawl now origin t token n =
      let leased = insert_lease db now origin t token n in
      if exists_where (is_open_attempt t) crawl.attempts
      then granted
          (record leased {
            proxy_id = set_column crawl.attempts (is_open_attempt t) n.id leased.proxy_id;
          })
          origin n
      else ok (release_proxy leased t.id token, none)

  abbrev pub choose : ProxyStore → ℕ → Option String → Option ProxyNode
  choose db now region = least_where (is_eligible now region) (stands_before now db.leases) db.nodes

  abbrev pub choose_for :
      ProxyStore
      → Db
      → ℕ
      → String
      → Option (Task × ℕ)
      → Option ProxyNode
      → PoolResult (ProxyStore × Option ProxyLease)
  choose_for db crawl now origin task none = ok (db, none)
  choose_for db crawl now origin none (some n) = granted db origin n
  choose_for db crawl now origin (some (t, token)) (some n) = assign db crawl now origin t token n

  abbrev pub select_for :
      ProxyStore
      → Db
      → ℕ
      → String
      → Option String
      → ℕ
      → Option Task
      → PoolResult (ProxyStore × Option ProxyLease)
  select_for db crawl now origin region token none = ok (db, none)
  select_for db crawl now origin region token (some t) =
      choose_for db crawl now origin (some (t, token)) (choose db now region)

  abbrev pub select_fenced :
      ProxyStore
      → Db
      → ℕ
      → String
      → Option String
      → Fence
      → PoolResult (ProxyStore × Option ProxyLease)
  select_fenced db crawl now origin region unfenced =
      choose_for db crawl now origin none (choose db now region)
  select_fenced db crawl now origin region (fenced task token) =
      select_for db crawl now origin region token
        (find_where (is_leased_task task token) crawl.tasks)

  abbrev pub are_valid : String → Option String → Bool
  are_valid origin none = not (str_eq origin "")
  are_valid origin (some r) = not (str_eq origin "") && are_regions (r ∷ [])

  abbrev pub select_merged :
      Db
      → ℕ
      → String
      → Option String
      → Fence
      → PoolResult ProxyStore
      → PoolResult (ProxyStore × Option ProxyLease)
  select_merged crawl now origin region fence (err e) = err e
  select_merged crawl now origin region fence (ok db) =
      select_fenced (drop_expired now db) crawl now origin region fence

  -- `select`; it commits also where it returns no lease
  unfoldable pub select :
      ProxyStore
      → Db
      → ℕ
      → String
      → Option String
      → Fence
      → PoolResult (ProxyStore × Option ProxyLease)
  unfolding merge_configured are_regions assign
  select db crawl now origin region fence =
      if are_valid origin region
      then select_merged crawl now origin region fence (merge_configured configured db)
      else err value_error

  unfoldable pub connect_node : ℕ → String → ProxyNode → ProxyNode
  connect_node now address n = record n {
    last_connected_ip = some address;
    last_seen_at = some now;
  }

  -- The attempt that a worker's report of its address is about, by the task's row.
  abbrev pub set_address : Db → ProxyStore → String → String → Option Task → ProxyStore
  set_address crawl db id address none = db
  set_address crawl db id address (some t) = record db {
    proxy_id = set_column crawl.attempts (is_open_attempt t) id db.proxy_id;
    connected_ip = set_column crawl.attempts (is_open_attempt t) address db.connected_ip;
  }

  abbrev pub record_address :
      ProxyStore → Db → ℕ → ℕ → ℕ → String → Option String → ProxyStore × Bool
  record_address db crawl now task token id none = (db, false)
  record_address db crawl now task token id (some address) =
      let p = λ (n : ProxyNode). node_named id n && is_fenced db crawl now task token n in
      if exists_where p db.nodes
      then (
        set_address crawl (record db { nodes = update_where p (connect_node now address) db.nodes })
            id address (find_where (λ (t : Task). t.id == task) crawl.tasks),
        true,
      )
      else (db, false)

  -- `record_connected_ip`
  unfoldable pub record_connected_ip :
      ProxyStore → Db → ℕ → ℕ → ℕ → String → String → ProxyStore × Bool
  unfolding connect_node
  record_connected_ip db crawl now task token id address =
      record_address db crawl now task token id (tools.public_address address)
