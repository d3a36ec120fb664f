-- ===== src/Acquisition/Proxy/Pool/Nodes.antt =====
-- The choice of a node in `ProxyPool.select` of app/acquisition/proxy.py leaves the nodes alone.
use crawltrove.Base.{
  ℕ, ◌==◌, String, not, ◌&&◌, Option, none, some, List, exists_where, find_where, if_cases,
}
use crawltrove.Queue.Rows.{Db, Task}
use crawltrove.Acquisition.Proxy.{ProxyNode, ProxyStore, value_error, ProxyTools, ConfiguredProxy}
use crawltrove.Acquisition.Proxy.Pool.{
  PoolResult, ok, err, after_configured, merge_configured, Fence, unfenced, fenced, is_leased_task,
}
use crawltrove.Acquisition.Proxy.Pool.Select.{
  select, choose, choose_for, select_for, select_fenced, select_merged, assign, granted,
  insert_lease, is_configured, drop_expired, are_valid, is_open_attempt,
}

-- The nodes that a transaction leaves have the property; where it raises there are none.
abbrev pub Leaves : (List ProxyNode → Type 0) → PoolResult ProxyStore → Type 0
Leaves P (ok db) = P db.nodes
Leaves P (err e) = Unit

abbrev pub LeavesWith :
    {A : Type 0} → (List ProxyNode → Type 0) → PoolResult (ProxyStore × A) → Type 0
LeavesWith P (ok (db, a)) = P db.nodes
LeavesWith P (err e) = Unit

pub Leaves-after :
    (P : List ProxyNode → Type 0) (rest : ProxyStore → PoolResult ProxyStore)
    (r : PoolResult ProxyStore)
    → Leaves P r
    → ((db : ProxyStore) → P db.nodes → Leaves P (rest db))
    → Leaves P (after_configured rest r)
Leaves-after P rest (ok db) h k = k db h
Leaves-after P rest (err e) h k = tt

module _ (P : List ProxyNode → Type 0) (tools : ProxyTools)
    (configured : List ConfiguredProxy) where
  granted-nodes :
      (db : ProxyStore) (origin : String) (n : ProxyNode)
      → P db.nodes
      → LeavesWith P (granted tools configured db origin n)
  granted-nodes db origin n h =
      if_cases (LeavesWith P) (is_configured tools configured n.id && not (tools.has_secrets n.id))
        (err value_error) _ (λ _. tt) (λ _. h)

  module _ (db : ProxyStore) (crawl : Db) (now : ℕ) (origin : String) where
    assign-nodes :
        (t : Task) (token : ℕ) (n : ProxyNode)
        → P db.nodes
        → LeavesWith P (assign tools configured db crawl now origin t token n)
    unfolding assign
    assign-nodes t token n h =
        if_cases (LeavesWith P) (exists_where (is_open_attempt t) crawl.attempts) _ _
          (λ _. granted-nodes _ origin n inserted) (λ _. inserted)
      where
        inserted : P (insert_lease tools configured db now origin t token n).nodes
        inserted =
            if_cases (λ (d : ProxyStore). P d.nodes)
              (exists_where (λ l. l.task_id == t.id) db.leases) db _ (λ _. h) (λ _. h)

    choose_for-nodes :
        (task : Option (Task × ℕ)) (node : Option ProxyNode)
        → P db.nodes
        → LeavesWith P (choose_for tools configured db crawl now origin task node)
    choose_for-nodes task none h = h
    choose_for-nodes none (some n) h = granted-nodes db origin n h
    choose_for-nodes (some (t, token)) (some n) h = assign-nodes t token n h

    select_for-nodes :
        (region : Option String) (token : ℕ) (found : Option Task)
        → P db.nodes
        → LeavesWith P (select_for tools configured db crawl now origin region token found)
    select_for-nodes region token none h = h
    select_for-nodes region token (some t) h =
        choose_for-nodes (some (t, token)) (choose tools configured db now region) h

    select_fenced-nodes :
        (region : Option String) (fence : Fence)
        → P db.nodes
        → LeavesWith P (select_fenced tools configured db crawl now origin region fence)
    select_fenced-nodes region unfenced h =
        choose_for-nodes none (choose tools configured db now region) h
    select_fenced-nodes region (fenced task token) h =
        select_for-nodes region token (find_where (is_leased_task task token) crawl.tasks) h

  -- `select` changes the nodes only as the merge of the configured ones does.
  pub select-nodes :
      (db : ProxyStore) (crawl : Db) (now : ℕ) (origin : String) (region : Option String)
      (fence : Fence)
      → Leaves P (merge_configured configured db)
      → LeavesWith P (select tools configured db crawl now origin region fence)
  unfolding select
  select-nodes db crawl now origin region fence h =
      if_cases (LeavesWith P) (are_valid tools configured origin region) _ (err value_error)
        (λ _. merged (merge_configured configured db) h) (λ _. tt)
    where
      merged :
          (r : PoolResult ProxyStore)
          → Leaves P r
          → LeavesWith P (select_merged tools configured crawl now origin region fence r)
      merged (err e) k = tt
      merged (ok d) k =
          select_fenced-nodes (drop_expired tools configured now d) crawl now origin region fence k
